-- ===== src/Hold/Indexed.antt =====
-- About the transaction of `createHold` (apps/api/src/services/booking.service.ts) and the unique index
-- on the slots of active bookings.
use booking_zoom_connect.Prelude.{
  ℕ, ◌≡◌, refl, inl, inr, false, Option, List, arith, Option-cases, find_first, find_first-In,
  find_first-none, ap,
}
use booking_zoom_connect.Store.{Booking, shares_slot}
use booking_zoom_connect.Service.{Env, World, modify}
use booking_zoom_connect.Service.Keeps.{Keeps, Keeps-modify}
use booking_zoom_connect.Schedule.Index.{
  IsIndexed, rewrite-IsIndexed, insert-IsIndexed, same_bookings-IsIndexed,
}
use booking_zoom_connect.Hold.{
  HoldParams, hold_until, rehold, new_booking, is_same_slot, try_create_hold, set_cursor, hold_tx,
}
use booking_zoom_connect.Hold.Rivals.{new_slot_decides, same_slot_reused}
use booking_zoom_connect.Hold.Safety.{HasFreshIds}
use booking_zoom_connect.Hold.Loop.{hold_tx-Keeps}

-- A row that does not have the slot shares none with the new row.
new_row-IsFree :
    (env : Env) (p : HoldParams) (s id : ℕ) (o : Booking)
    → is_same_slot p s o ≡ false
    → shares_slot (new_booking env p s id) o ≡ false
unfolding shares_slot
new_row-IsFree env p s id o other = ground arith

set_cursor-IsIndexed : (t c : ℕ) → Keeps IsIndexed (modify (set_cursor t c))
unfolding set_cursor
set_cursor-IsIndexed t c = Keeps-modify _ (λ db s. same_bookings-IsIndexed db _ refl s)

module _ (env : Env) (fresh : HasFreshIds env) (p : HoldParams) where
  try_create_hold-IsIndexed : (s : ℕ) → Keeps IsIndexed (try_create_hold env p s)
  try_create_hold-IsIndexed s = record { at = at' }
    where
      at' : (w : World) → IsIndexed w.db → IsIndexed (try_create_hold env p s w).1.db
      at' w ix = elim (Option-cases (find_first (is_same_slot p s) w.db.bookings)) [
        | inl no_row ↦ elim (new_slot_decides env p s w no_row) [
          | inl (o, m, c, same) ↦ same_bookings-IsIndexed w.db _ (ap (λ x. x.1.db.bookings) same) ix
          | inr (f, given, rows) ↦
              insert-IsIndexed (new_booking env p s (env.new_booking_id w.db)) w.db _ (fresh w.db)
                (λ o m.
                  new_row-IsFree env p s (env.new_booking_id w.db) o
                    (find_first-none _ w.db.bookings o no_row m))
                rows ix
        ]
        | inr (old, found) ↦ elim (same_slot_reused env p s old w found) [
          | inl (live, same) ↦ same_bookings-IsIndexed w.db _ (ap (λ x. x.1.db.bookings) same) ix
          | inr (inl (dead, rival, same)) ↦
              same_bookings-IsIndexed w.db _ (ap (λ x. x.1.db.bookings) same) ix
          | inr (inr (dead, free, given, rows)) ↦
              rewrite-IsIndexed old (rehold (hold_until env p.now) p) w.db _
                (find_first-In _ w.db.bookings old found) (λ x. refl) free rows ix
        ]
      ]

  -- If the database gives new ids, the transaction of a hold keeps what the unique index promises (no two
  -- active rows with the same tenant, salesperson, start and end, and no two with an id), though only
  -- the reuse of a row is tested against the index: the row that is inserted cannot break it.
  pub hold_tx-IsIndexed :
      (chosen : Option ℕ) (busy : List ℕ) → Keeps IsIndexed (hold_tx env p chosen busy)
  hold_tx-IsIndexed chosen busy =
      hold_tx-Keeps env p set_cursor-IsIndexed try_create_hold-IsIndexed chosen busy
