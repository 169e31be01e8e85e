-- ===== src/Confirm/Indexed.antt =====
-- About the transaction of `confirmBooking` (apps/api/src/services/booking.service.ts) and the unique
-- index on the slots of active bookings.
use booking_zoom_connect.Prelude.{ℕ, String, refl, inl, inr, arith}
use booking_zoom_connect.Store.{Db, Booking, shares_slot, update_booking}
use booking_zoom_connect.Store.Keys.{find_booking-In}
use booking_zoom_connect.Service.{World, transaction, drop_hold, clear_public_token}
use booking_zoom_connect.Service.Keeps.{Keeps}
use booking_zoom_connect.Schedule.Index.{
  IsIndexed, IsQuiet, rewrite-IsIndexed, quiet-IsIndexed, quiet-IsFree,
}
use booking_zoom_connect.Confirm.{confirm_tx, mark_confirmed}
use booking_zoom_connect.Confirm.Outcome.{Confirms, confirm_tx_outcome}

drop_hold-IsQuiet : IsQuiet drop_hold
unfolding shares_slot
drop_hold-IsQuiet b = (refl, λ o h. ground arith)

clear_public_token-IsQuiet : IsQuiet clear_public_token
unfolding shares_slot
clear_public_token-IsQuiet b = (refl, λ o h. ground arith)

mark_confirmed-IsIndexed :
    (now tenant id : ℕ) (jti : String) (db db' : Db) (b : Booking)
    → Confirms now tenant id jti db db' b
    → IsIndexed db
    → IsIndexed (record db { bookings = update_booking b.id mark_confirmed db.bookings })
mark_confirmed-IsIndexed now tenant id jti db db' b c s =
    let m = find_booking-In id tenant db.bookings b c.found in
    rewrite-IsIndexed b mark_confirmed db _ m (λ x. refl)
      (λ o mo.
        quiet-IsFree b (mark_confirmed b) o refl refl refl refl refl (rw c.pending refl)
          (s.slots b o m mo))
      refl s

-- A confirmation, which is not tested against the index, does not break it.
confirm_tx-IsIndexed :
    (now tenant id : ℕ) (jti : String)
    → Keeps IsIndexed (transaction (confirm_tx now tenant id jti))
confirm_tx-IsIndexed now tenant id jti = record { at = at' }
  where
    at' :
        (w : World) → IsIndexed w.db → IsIndexed (transaction (confirm_tx now tenant id jti) w).1.db
    at' w s = elim (confirm_tx_outcome now tenant id jti w) [
      | inl same ↦ rw same s
      | inr (b, c) ↦ rw c.wrote (
          quiet-IsIndexed b.id drop_hold _ drop_hold-IsQuiet (
            quiet-IsIndexed b.id clear_public_token _ clear_public_token-IsQuiet
              (mark_confirmed-IsIndexed now tenant id jti w.db _ b c s)))
    ]
