-- ===== src/Confirm/Decides.antt =====
-- About the transaction of `confirmBooking` (apps/api/src/services/booking.service.ts): its answers.
use booking_zoom_connect.Prelude.{ℕ, String, Option, ◌≡◌, ◌≢◌, ◌⊎◌, true, false, some, arith}
use booking_zoom_connect.Store.{Booking, pending_verify, confirmed, hold_after, find_booking}
use booking_zoom_connect.Service.{
  World, Result, ok, err, conflict, forbidden, transaction, ◌>>=◌, modify_booking,
}
use booking_zoom_connect.Confirm.{
  confirm_tx, confirm_found, confirm_latest, slot_conflict, jti_matches, mark_confirmed,
  write_confirmed,
}
use booking_zoom_connect.Confirm.Outcome.{written}

abbrev pub SameRow : Booking → Result (Option Booking) × World → World → Type 0
SameRow b r w = (b.status ≡ confirmed) × (r ≡ (ok (some b), w))

abbrev pub NotPending : Booking → Result (Option Booking) × World → World → Type 0
NotPending b r w =
    (b.status ≢ confirmed)
    × (b.status ≢ pending_verify)
    × (r ≡ (err (conflict "Invalid booking state"), w))

abbrev pub OtherToken : Booking → String → Result (Option Booking) × World → World → Type 0
OtherToken b jti r w =
    (b.status ≡ pending_verify)
    × (jti_matches b.verify_token_jti jti ≡ false)
    × (r ≡ (err (forbidden "Token already used"), w))

abbrev pub RunOut : ℕ → Booking → String → Result (Option Booking) × World → World → Type 0
RunOut now b jti r w =
    (b.status ≡ pending_verify)
    × (jti_matches b.verify_token_jti jti ≡ true)
    × (hold_after now b.held ≡ false)
    × (r ≡ (err (conflict "Hold expired"), w))

abbrev pub IsTaken : ℕ → ℕ → Booking → String → Result (Option Booking) × World → World → Type 0
IsTaken now tenant b jti r w =
    (b.status ≡ pending_verify)
    × (jti_matches b.verify_token_jti jti ≡ true)
    × (hold_after now b.held ≡ true)
    × (slot_conflict now tenant b w.db ≡ true)
    × (r ≡ (err (conflict "Slot already taken"), w))

abbrev pub WritesRow : ℕ → ℕ → Booking → String → Result (Option Booking) × World → World → Type 0
WritesRow now tenant b jti r w =
    (b.status ≡ pending_verify)
    × (jti_matches b.verify_token_jti jti ≡ true)
    × (hold_after now b.held ≡ true)
    × (slot_conflict now tenant b w.db ≡ false)
    × (r.0 ≡ ok (some (mark_confirmed b)))
    × (r.1.db.bookings ≡ written b.id w.db.bookings)

-- The transaction on a row that it finds has six outcomes, each with its condition: the row was
-- confirmed before and is the answer; it is not pending; its token is another; its hold has run out;
-- a live rival has its slot; or it is confirmed. Only in the last is the state another than before.
pub confirm_decides :
    (now tenant id : ℕ) (jti : String) (b : Booking) (w : World)
    → find_booking id tenant w.db.bookings ≡ some b
    → SameRow b (transaction (confirm_tx now tenant id jti) w) w
      ⊎ NotPending b (transaction (confirm_tx now tenant id jti) w) w
      ⊎ OtherToken b jti (transaction (confirm_tx now tenant id jti) w) w
      ⊎ RunOut now b jti (transaction (confirm_tx now tenant id jti) w) w
      ⊎ IsTaken now tenant b jti (transaction (confirm_tx now tenant id jti) w) w
      ⊎ WritesRow now tenant b jti (transaction (confirm_tx now tenant id jti) w) w
unfolding confirm_tx confirm_found confirm_latest write_confirmed modify_booking transaction ◌>>=◌
confirm_decides now tenant id jti b w found = ground arith
