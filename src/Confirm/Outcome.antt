-- ===== src/Confirm/Outcome.antt =====
-- About the transaction of `confirmBooking` (apps/api/src/services/booking.service.ts): its writes.
use booking_zoom_connect.Prelude.{
  ℕ, String, ◌≡◌, ◌⊎◌, inl, inr, true, false, some, List, arith, Option-cases,
}
use booking_zoom_connect.Store.{
  Booking, pending_verify, hold_after, find_booking, update_booking, Db,
}
use booking_zoom_connect.Service.{World, transaction, ◌>>=◌, drop_hold, modify_booking}
use booking_zoom_connect.Confirm.{
  confirm_tx, confirm_found, confirm_latest, slot_conflict, jti_matches, mark_confirmed,
  clear_public_token, write_confirmed,
}

-- The bookings after the three writes to row `id`.
abbrev pub written : ℕ → List Booking → List Booking
written id bs =
    update_booking id drop_hold
      (update_booking id clear_public_token (update_booking id mark_confirmed bs))

-- The tests that the booking `b` passed, and the writes that followed.
pub record Confirms (now tenant id : ℕ) (jti : String) (db db' : Db) (b : Booking) : Type 0 where
  pub found : find_booking id tenant db.bookings ≡ some b
  pub pending : b.status ≡ pending_verify
  pub token : jti_matches b.verify_token_jti jti ≡ true
  pub unexpired : hold_after now b.held ≡ true
  pub free : slot_conflict now tenant b db ≡ false
  pub wrote : db' ≡ record db { bookings = written b.id db.bookings }

module _ (now tenant id : ℕ) (jti : String) where
  latest_outcome :
      (b : Booking) (w : World)
      → find_booking id tenant w.db.bookings ≡ some b
      → ((transaction (confirm_latest now tenant jti b) w).1.db ≡ w.db)
        ⊎ Confirms now tenant id jti w.db (transaction (confirm_latest now tenant jti b) w).1.db b
  unfolding confirm_latest write_confirmed transaction modify_booking ◌>>=◌
  latest_outcome b w found = ground arith

  pub confirm_tx_outcome :
      (w : World)
      → ((transaction (confirm_tx now tenant id jti) w).1.db ≡ w.db)
        ⊎ ((b : Booking) × Confirms now tenant id jti w.db
              (transaction (confirm_tx now tenant id jti) w).1.db
              b)
  unfolding confirm_tx confirm_found transaction ◌>>=◌
  confirm_tx_outcome w = elim (Option-cases (find_booking id tenant w.db.bookings)) [
    | inl absent ↦ inl (ground arith)
    | inr (b, found) ↦ ground (arith, latest_outcome b w found)
  ]
