-- ===== src/ConfirmById.antt =====
-- `BookingService.confirmBookingById` (apps/api/src/services/booking.service.ts): confirmation by the
-- booking's id and its public token, which lives for fifteen minutes from the booking's creation. The
-- token's raw query reads the row that `findFirst` has just returned.
pub mod Rivals
use booking_zoom_connect.Prelude.{
  ℕ, String, Bool, not, Option, none, some, ◌+◌, ◌*◌, leb, str_eq, if◌then◌else◌,
}
use booking_zoom_connect.Store.{hold, Tenant, Booking, status_eq, find_booking}
use booking_zoom_connect.Service.{
  Action, Env, pure, gets, raise_if, or_raise, modify, ◌>>=◌, ◌>>◌, transaction, bad_request,
  not_found, conflict, find_tenant, is_empty, modify_booking, drop_hold, clear_public_token,
  check_idempotency, record_idempotency,
}
use booking_zoom_connect.Service.PostConfirm.{post_confirm}
use booking_zoom_connect.Confirm.{mark_confirmed}

-- Fifteen minutes, in milliseconds.
abbrev pub public_token_ttl : ℕ
public_token_ttl = 15 * 60 * 1000

-- `publicConfirmToken === token`
abbrev pub token_matches : Option String → String → Bool
token_matches none token = Bool.false
token_matches (some t) token = str_eq t token

-- The three tests, made before the transaction and again inside it.
unfoldable pub check_public_token : ℕ → String → Booking → Action (Unit {0})
check_public_token now token b = do
  raise_if (not (status_eq b.status hold)) (conflict "Invalid booking state")
  raise_if (not (token_matches b.public_confirm_token token))
      (bad_request "invalid public confirm token")
  raise_if (leb (b.created_at + public_token_ttl) now) (bad_request "public confirm token expired")

unfoldable pub by_id_found : ℕ → String → Option Booking → Action (Option Booking)
by_id_found now token none = pure none
by_id_found now token (some latest) = do
  check_public_token now token latest
  modify_booking latest.id mark_confirmed
  modify_booking latest.id clear_public_token
  modify_booking latest.id drop_hold
  pure (some (mark_confirmed latest))

-- The body of the transaction.
unfoldable pub by_id_tx : ℕ → ℕ → ℕ → String → Action (Option Booking)
by_id_tx now tenant id token = do
  latest ← gets (λ db. find_booking id tenant db.bookings)
  by_id_found now token latest

unfoldable pub by_id_done :
    Env → String → Tenant → String → Option Booking → Action (Option Booking)
by_id_done env slug tenant key none = pure none
by_id_done env slug tenant key (some b) = do
  modify (record_idempotency tenant.id "confirm-by-id" key)
  post_confirm env slug b.id
  pure (some b)

unfoldable pub by_id_loaded :
    Env → ℕ → ℕ → String → Tenant → String → String → Option Booking → Action (Option Booking)
by_id_loaded env now now_in_tx slug tenant token key none = pure none
by_id_loaded env now now_in_tx slug tenant token key (some booking) = do
  check_public_token now token booking
  modify env.others
  done ← transaction (by_id_tx now_in_tx tenant.id booking.id token)
  by_id_done env slug tenant key done

unfoldable pub confirm_booking_by_id :
    Env → ℕ → ℕ → String → ℕ → String → String → Action (Option Booking)
confirm_booking_by_id env now now_in_tx slug id token key = do
  tenant ← or_raise (← gets (find_tenant slug)) (not_found "Tenant not found")
  raise_if (is_empty key) (bad_request "Idempotency-Key required")
  raise_if (is_empty token) (bad_request "token required")
  existing ← gets (check_idempotency tenant.id "confirm-by-id" key)
  if existing then gets (λ db. find_booking id tenant.id db.bookings) else do
    booking ← gets (λ db. find_booking id tenant.id db.bookings)
    by_id_loaded env now now_in_tx slug tenant token key booking
