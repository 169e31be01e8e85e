-- ===== src/Verify/Accepted.antt =====
-- About `sendVerification` and the transaction of `confirmBooking`
-- (apps/api/src/services/booking.service.ts): the token's id between them.
use booking_zoom_connect.Prelude.{
  ℕ, String, ◌≡◌, inl, inr, refl, true, false, some, arith, str_eq_refl,
}
use booking_zoom_connect.Store.{
  Booking, Hold, Tenant, is_held, hold_after, find_booking, update_booking,
}
use booking_zoom_connect.Store.Keys.{find_booking-update_booking, find_booking_fields}
use booking_zoom_connect.Service.{
  Env, World, ok, transaction, find_tenant, is_empty, check_idempotency, modify_booking, ◌>>=◌,
}
use booking_zoom_connect.Confirm.{
  confirm_tx, confirm_found, confirm_latest, write_confirmed, mark_confirmed, slot_conflict,
}
use booking_zoom_connect.Verify.{send_verification, verify_payload, mark_pending, jti_of}
use booking_zoom_connect.Verify.Outcome.{verification_decides}

marked_found :
    (env : Env) (t : Tenant) (id : ℕ) (b : Booking) (w w' : World)
    → find_booking id t.id w.db.bookings ≡ some b
    → w'.db.bookings
      ≡ update_booking b.id (mark_pending (jti_of env b.id b.verify_token_jti)) w.db.bookings
    → find_booking id t.id w'.db.bookings
      ≡ some (mark_pending (jti_of env b.id b.verify_token_jti) b)
marked_found env t id b w w' found wrote =
    let (same, _) = find_booking_fields id t.id w.db.bookings b found in
    let e =
      find_booking-update_booking id t.id (mark_pending (jti_of env b.id b.verify_token_jti))
        w.db.bookings b (λ x. (refl, refl)) found in
    grind arith

confirm_marked :
    (now tenant id : ℕ) (jti : String) (b : Booking) (w : World)
    → find_booking id tenant w.db.bookings ≡ some (mark_pending jti b)
    → hold_after now b.held ≡ true
    → slot_conflict now tenant (mark_pending jti b) w.db ≡ false
    → (transaction (confirm_tx now tenant id jti) w).0
      ≡ ok (some (mark_confirmed (mark_pending jti b)))
unfolding confirm_tx confirm_found confirm_latest write_confirmed modify_booking transaction ◌>>=◌
confirm_marked now tenant id jti b w found live free = ground (arith, str_eq_refl jti)

-- Take a held booking with a hold that lives, and a first call of `sendVerification` for it with a new
-- key. If at a later time the hold still lives and no live rival is in the slot, then the confirmation
-- with the id of the token that the call signed confirms the booking.
pub verification_accepted :
    (env : Env) (now later : ℕ) (slug : String) (id : ℕ) (key : String) (t : Tenant) (b : Booking)
    (h : Hold) (w : World)
    → is_empty key ≡ false
    → find_tenant slug w.db ≡ some t
    → find_booking id t.id w.db.bookings ≡ some b
    → b.held ≡ some h
    → is_held b.status ≡ true
    → hold_after now b.held ≡ true
    → check_idempotency t.id "verify-email" key w.db ≡ false
    → hold_after later b.held ≡ true
    → slot_conflict later t.id
        (mark_pending (jti_of env b.id b.verify_token_jti) b)
        (send_verification env now slug id key w).1.db
      ≡ false
    → (transaction
        (confirm_tx later t.id id (verify_payload env t b h).jti)
        (send_verification env now slug id key w).1).0
      ≡ ok (some (mark_confirmed (mark_pending (jti_of env b.id b.verify_token_jti) b)))
verification_accepted env now later slug id key t b h w hk tenant found has held live new still
      free =
    elim (verification_decides env now slug id key t b h w hk tenant found has held) [
      | inl (late, _, _) ↦ absurd (ground arith)
      | inr (inl (_, used, _)) ↦ absurd (ground arith)
      | inr (inr (_, _, wrote, _)) ↦
          confirm_marked later t.id id _ b _
            (marked_found env t id b w (send_verification env now slug id key w).1 found wrote)
            still free
    ]
