-- ===== src/Confirm/Safety.antt =====
-- About `confirmBooking` (apps/api/src/services/booking.service.ts) and the calendar.
use booking_zoom_connect.Prelude.{
  ℕ, String, ◌≡◌, ◌≢◌, inl, inr, false, Option, some, none, arith, In, refl, find_first,
  find_first-none, Option-cases,
}
use booking_zoom_connect.Store.{Booking, Db, Tenant, confirmed, update_booking, conflicts_at}
use booking_zoom_connect.Store.Keys.{find_booking-In, find_booking_fields}
use booking_zoom_connect.Schedule.{
  IsSound, Clashes, update-HasUniqueIds, update-NoDoubleBooking, tame-IsSound,
}
use booking_zoom_connect.Service.{Env, World, clear_public_token, drop_hold, transaction}
use booking_zoom_connect.Schedule.Rules.{
  sound_rules, post_confirm-IsSound, drop_hold-IsTame, clear_public_token-IsTame,
}
use booking_zoom_connect.Service.Keeps.{Keeps}
use booking_zoom_connect.Confirm.{
  is_rival, slot_conflict, mark_confirmed, confirm_tx, confirm_booking, confirm_loaded,
  confirm_held, confirm_done,
}
use booking_zoom_connect.Confirm.Outcome.{Confirms, confirm_tx_outcome}

-- A row that the conflict query passes over does not clash with any other confirmed row.
slot_conflict_sound :
    (now tenant : ℕ) (b : Booking) (db : Db) (o : Booking)
    → slot_conflict now tenant b db ≡ false
    → b.tenant_id ≡ tenant
    → In o db.bookings
    → o.id ≢ b.id
    → o.status ≡ confirmed
    → ¬ Clashes b o
unfolding slot_conflict conflicts_at
slot_conflict_sound now tenant b db o free t m ne c clash =
    elim (Option-cases (find_first (is_rival now tenant b) db.bookings)) [
      | inl nothing ↦
          absurd (ground (arith, find_first-none (is_rival now tenant b) db.bookings o nothing m))
      | inr (x, found) ↦ absurd (ground arith)
    ]

mark_confirmed_writes :
    (now tenant id : ℕ) (jti : String) (db db' : Db) (b : Booking)
    → Confirms now tenant id jti db db' b
    → IsSound db
    → IsSound (record db { bookings = update_booking b.id mark_confirmed db.bookings })
mark_confirmed_writes now tenant id jti db db' b c s = record {
  unique = update-HasUniqueIds b.id mark_confirmed db.bookings (λ _. refl) s.unique;
  disjoint =
      update-NoDoubleBooking b.id mark_confirmed db.bookings (λ _. refl)
        (λ r o mr ir mo no co _ clash.
          slot_conflict_sound now tenant b db o c.free (find_booking_fields id tenant _ b c.found).1
            mo no co
            (let e : r ≡ b = s.unique r b mr (find_booking-In id tenant _ b c.found) ir in
              ground arith))
        s.disjoint;
}

-- The transaction keeps a sound database sound.
confirm_tx-IsSound :
    (now tenant id : ℕ) (jti : String) → Keeps IsSound (transaction (confirm_tx now tenant id jti))
confirm_tx-IsSound now tenant id jti = record { at = at' }
  where
    at' : (w : World) → IsSound w.db → IsSound (transaction (confirm_tx now tenant id jti) w).1.db
    at' w s = elim (confirm_tx_outcome now tenant id jti w) [
      | inl same ↦ rw same s
      | inr (b, c) ↦ rw c.wrote (
          tame-IsSound b.id drop_hold _ drop_hold-IsTame (
            tame-IsSound b.id clear_public_token _ clear_public_token-IsTame
              (mark_confirmed_writes now tenant id jti w.db _ b c s)))
    ]

ruleset confirm_rules = (sound_rules, confirm_tx-IsSound, post_confirm-IsSound)

confirm_done-IsSound :
    (env : Env) (slug : String) (tenant : Tenant) (key : String) (o : Option Booking)
    → Keeps IsSound (confirm_done env slug tenant key o)
unfolding confirm_done
confirm_done-IsSound env slug tenant key none = search confirm_rules
confirm_done-IsSound env slug tenant key (some b) = search confirm_rules

-- Whatever other requests commit before the transaction, as long as they keep the calendar sound,
-- confirming by token keeps it sound, whether it returns or throws.
pub confirm_booking-IsSound :
    (env : Env) (now now_in_tx : ℕ) (slug token key : String)
    → ((db : Db) → IsSound db → IsSound (env.others db))
    → Keeps IsSound (confirm_booking env now now_in_tx slug token key)
unfolding confirm_booking confirm_loaded confirm_held
confirm_booking-IsSound env now now_in_tx slug token key others =
    search (confirm_rules, confirm_done-IsSound, others) depth 30
