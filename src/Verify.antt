-- ===== src/Verify.antt =====
-- `BookingService.sendVerification` (apps/api/src/services/booking.service.ts): a hold becomes
-- pending, and a token that lives as long as the hold is signed and mailed. The mail is sent without
-- waiting for it.
pub mod Accepted
pub mod Outcome
pub mod Safety
use Prim.Native.String
use booking_zoom_connect.Prelude.{
  ℕ, String, Bool, not, ◌&&◌, Option, none, some, ◌/◌, if◌then◌else◌, leb,
}
use booking_zoom_connect.Store.{pending_verify, Tenant, Booking, Hold, is_held, find_booking}
use booking_zoom_connect.Service.{
  Action, Env, TokenPayload, verify, pure, raise, gets, raise_if, or_raise, modify, log_call,
  send_mail, ◌>>=◌, ◌>>◌, bad_request, not_found, conflict, find_tenant, is_empty, is_blank,
  modify_booking, expire, check_idempotency, record_idempotency,
}

-- `{ status: "sent", token }`
pub record Sent : Type 0 where
  pub status : String
  pub token : String

-- `booking.verify_token_jti || "verify-" + id`
abbrev pub jti_of : Env → ℕ → Option String → String
jti_of env id none = String.◌++◌ "verify-" (env.uuid_text id)
jti_of env id (some j) = if is_empty j then String.◌++◌ "verify-" (env.uuid_text id) else j

-- The payload that `signBookingToken` is given.
abbrev pub verify_payload : Env → Tenant → Booking → Hold → TokenPayload
verify_payload env tenant b h = record {
  exp = h.expires_at_utc / 1000;
  jti = jti_of env b.id b.verify_token_jti;
  tenant_id = tenant.id;
  booking_id = b.id;
  purpose = verify;
}

abbrev pub mark_pending : String → Booking → Booking
mark_pending jti b = record b { verify_token_jti = some jti; status = pending_verify }

-- `{ status: "sent", token }` for the payload.
abbrev pub sent : Env → TokenPayload → Sent
sent env p = record { status = "sent"; token = env.sign p }

-- The first call: the row is rewritten, the key recorded, and the mail sent if Graph is set up.
unfoldable pub send_first : Env → Tenant → Booking → Hold → String → Action Sent
send_first env tenant b h key = do
  let payload = verify_payload env tenant b h
  modify_booking b.id (mark_pending payload.jti)
  modify (record_idempotency tenant.id "verify-email" key)
  if env.graph_enabled && not (is_blank tenant.m365_tenant_id)
      then log_call (send_mail b.id) >> pure (sent env payload)
      else pure (sent env payload)

-- The tests that the first call and a repeated one share; a hold that ran out is written down.
unfoldable pub send_checked : ℕ → Booking → Hold → Action Sent → Action Sent
send_checked now b h next = do
  raise_if (not (is_held b.status)) (conflict "Invalid booking state")
  if leb h.expires_at_utc now
      then modify_booking b.id expire >> raise (conflict "Hold expired")
      else next

unfoldable pub send_loaded : Env → ℕ → Tenant → String → Bool → Booking → Option Hold → Action Sent
send_loaded env now tenant key existing b none = raise (not_found "Booking not found")
send_loaded env now tenant key existing b (some h) = send_checked now b h (
    if existing
    then pure (sent env (verify_payload env tenant b h))
    else send_first env tenant b h key)

unfoldable pub send_verification : Env → ℕ → String → ℕ → String → Action Sent
send_verification env now slug id key = do
  raise_if (is_empty key) (bad_request "Idempotency-Key required")
  tenant ← or_raise (← gets (find_tenant slug)) (not_found "Tenant not found")
  existing ← gets (check_idempotency tenant.id "verify-email" key)
  booking ←
      or_raise (← gets (λ db. find_booking id tenant.id db.bookings))
        (not_found "Booking not found")
  send_loaded env now tenant key existing booking booking.held
