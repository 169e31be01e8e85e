-- ===== src/Verify/Outcome.antt =====
-- About `sendVerification` (apps/api/src/services/booking.service.ts): its answers and writes.
use booking_zoom_connect.Prelude.{ℕ, String, ◌≡◌, ◌⊎◌, true, false, some, arith}
use booking_zoom_connect.Store.{
  Booking, Hold, Tenant, is_held, find_booking, update_booking, hold_after,
}
use booking_zoom_connect.Service.{
  Env, World, ok, err, conflict, ◌>>=◌, find_tenant, is_empty, modify_booking, check_idempotency,
  expire,
}
use booking_zoom_connect.Schedule.Rules.{bookings-record_idempotency, check-record_idempotency}
use booking_zoom_connect.Verify.{
  sent, verify_payload, jti_of, mark_pending, send_first, send_checked, send_loaded,
  send_verification,
}

module _ (env : Env) (now : ℕ) (slug : String) (id : ℕ) (key : String) (t : Tenant) (b : Booking)
    (h : Hold) (w : World) where
  pub verification_decides :
      is_empty key ≡ false
      → find_tenant slug w.db ≡ some t
      → find_booking id t.id w.db.bookings ≡ some b
      → b.held ≡ some h
      → is_held b.status ≡ true
      → ((hold_after now b.held ≡ false)
          × ((send_verification env now slug id key w).0 ≡ err (conflict "Hold expired"))
          × ((send_verification env now slug id key w).1.db.bookings
              ≡ update_booking b.id expire w.db.bookings))
        ⊎ ((hold_after now b.held ≡ true)
            × (check_idempotency t.id "verify-email" key w.db ≡ true)
            × (send_verification env now slug id key w
                ≡ (ok (sent env (verify_payload env t b h)), w)))
        ⊎ ((hold_after now b.held ≡ true)
            × ((send_verification env now slug id key w).0
                ≡ ok (sent env (verify_payload env t b h)))
            × ((send_verification env now slug id key w).1.db.bookings
                ≡ update_booking b.id
                    (mark_pending (jti_of env b.id b.verify_token_jti))
                    w.db.bookings)
            × (check_idempotency t.id "verify-email" key
                  (send_verification env now slug id key w).1.db
                ≡ true))
  unfolding send_verification send_loaded send_checked send_first modify_booking ◌>>=◌
  verification_decides hk tenant found has held =
      grind (arith, bookings-record_idempotency, check-record_idempotency)
