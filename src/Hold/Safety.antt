-- ===== src/Hold/Safety.antt =====
-- About the transaction of `createHold` (apps/api/src/services/booking.service.ts) and the calendar.
use booking_zoom_connect.Prelude.{ℕ, refl, ◌≢◌, Option, none, some, List, In, arith}
use booking_zoom_connect.Store.{Booking, Hold, Db}
use booking_zoom_connect.Service.{Env, modify, gets, ◌>>=◌, pure}
use booking_zoom_connect.Service.Keeps.{Keeps, keeps_rules}
use booking_zoom_connect.Schedule.{IsSound, IsTame, insert-IsSound}
use booking_zoom_connect.Schedule.Rules.{sound_rules, other_tables-IsSound}
use booking_zoom_connect.Hold.{
  HoldParams, rehold, new_booking, insert_booking, hold_free, hold_slot, try_create_hold,
  set_cursor, hold_tx,
}
use booking_zoom_connect.Hold.Loop.{hold_tx-Keeps}

-- The ids that the database gives are new.
abbrev pub HasFreshIds : Env → Type 0
HasFreshIds env = (db : Db) (o : Booking) → In o db.bookings → o.id ≢ env.new_booking_id db

rehold-IsTame : (h : Hold) (p : HoldParams) → IsTame (rehold h p)
rehold-IsTame h p b = ground arith

set_cursor-IsSound : (t c : ℕ) → Keeps IsSound (modify (set_cursor t c))
unfolding set_cursor
set_cursor-IsSound t c = other_tables-IsSound _ (λ db. refl)

module _ (env : Env) (fresh : HasFreshIds env) (p : HoldParams) where
  -- The id is read and used in one step.
  insert_new-IsSound :
      (s : ℕ)
      → Keeps IsSound (
          gets env.new_booking_id >>= λ id.
          modify (insert_booking (new_booking env p s id)) >>= λ _.
          pure (some (new_booking env p s id)))
  unfolding ◌>>=◌ insert_booking
  insert_new-IsSound s = record {
    at = λ w h.
        insert-IsSound (new_booking env p s (env.new_booking_id w.db)) w.db (ground arith)
          (fresh w.db) h;
  }

  hold_free-IsSound : (s : ℕ) → Keeps IsSound (hold_free env p s)
  unfolding hold_free
  hold_free-IsSound s = search (insert_new-IsSound, keeps_rules)

  hold_slot-IsSound : (s : ℕ) (o : Option Booking) → Keeps IsSound (hold_slot env p s o)
  unfolding hold_slot
  hold_slot-IsSound s none = hold_free-IsSound s
  hold_slot-IsSound s (some b) = search (sound_rules, rehold-IsTame) depth 9

  try_create_hold-IsSound : (s : ℕ) → Keeps IsSound (try_create_hold env p s)
  unfolding try_create_hold
  try_create_hold-IsSound s = search (sound_rules, hold_slot-IsSound)

  pub hold_tx-IsSound :
      (chosen : Option ℕ) (busy : List ℕ) → Keeps IsSound (hold_tx env p chosen busy)
  hold_tx-IsSound chosen busy =
      hold_tx-Keeps env p set_cursor-IsSound try_create_hold-IsSound chosen busy
