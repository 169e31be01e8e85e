-- ===== src/Confirm.antt =====
-- `BookingService.confirmBooking` (apps/api/src/services/booking.service.ts): confirmation by the
-- mailed token. The first reads run at `now`; then other requests may commit, as `env.others` says;
-- then the transaction runs at `now_in_tx`. Apart from that, a method runs undisturbed.
pub mod Outcome
pub mod Decides
pub mod Safety
pub mod Indexed
use booking_zoom_connect.Prelude.{
  ℕ, String, ⊤, Bool, not, Option, none, some, ◌==◌, str_eq, if◌then◌else◌, find_first, ◌&&◌,
}
use booking_zoom_connect.Store.{
  BookingStatus, confirmed, expired, pending_verify, Db, Tenant, Booking, status_eq, hold_after,
  conflicts_at, find_booking,
}
use booking_zoom_connect.Service.{
  Action, Env, TokenPayload, verify, purpose_eq, pure, raise, gets, raise_if, or_raise, modify,
  ◌>>=◌, ◌>>◌, transaction, bad_request, not_found, forbidden, conflict, find_tenant,
  find_salesperson, find_customer, is_empty, is_some, modify_booking, drop_hold, expire,
  clear_public_token, check_idempotency, record_idempotency, verify_token_or_raise,
}
use booking_zoom_connect.Service.PostConfirm.{post_confirm}

-- `booking.verify_token_jti === tokenPayload.jti`
abbrev pub jti_matches : Option String → String → Bool
jti_matches none jti = Bool.false
jti_matches (some j) jti = str_eq j jti

abbrev pub mark_confirmed : Booking → Booking
mark_confirmed b = record b { status = confirmed; verify_token_jti = none }

-- Another live booking of the salesperson in the slot of `b`.
abbrev pub is_rival : ℕ → ℕ → Booking → Booking → Bool
is_rival now tenant b o =
    not (o.id == b.id) && conflicts_at tenant b.salesperson_id b.start_at_utc b.end_at_utc now o

-- The `findFirst` of the conflict check.
unfoldable pub slot_conflict : ℕ → ℕ → Booking → Db → Bool
slot_conflict now tenant b db = is_some (find_first (is_rival now tenant b) db.bookings)

-- The three writes of the transaction.
unfoldable pub write_confirmed : Booking → Action (Option Booking)
write_confirmed b = do
  modify_booking b.id mark_confirmed
  modify_booking b.id clear_public_token
  modify_booking b.id drop_hold
  pure (some (mark_confirmed b))

unfoldable pub confirm_latest : ℕ → ℕ → String → Booking → Action (Option Booking)
confirm_latest now tenant jti latest =
    if status_eq latest.status confirmed then pure (some latest) else do
      raise_if (not (status_eq latest.status pending_verify)) (conflict "Invalid booking state")
      raise_if (not (jti_matches latest.verify_token_jti jti)) (forbidden "Token already used")
      if not (hold_after now latest.held)
          then (modify_booking latest.id expire >> raise (conflict "Hold expired"))
          else do
            taken ← gets (slot_conflict now tenant latest)
            raise_if taken (conflict "Slot already taken")
            write_confirmed latest

unfoldable pub confirm_found : ℕ → ℕ → String → Option Booking → Action (Option Booking)
confirm_found now tenant jti none = pure none
confirm_found now tenant jti (some latest) = confirm_latest now tenant jti latest

-- The body of the transaction.
unfoldable pub confirm_tx : ℕ → ℕ → ℕ → String → Action (Option Booking)
confirm_tx now tenant id jti = do
  latest ← gets (λ db. find_booking id tenant db.bookings)
  confirm_found now tenant jti latest

unfoldable pub confirm_done :
    Env → String → Tenant → String → Option Booking → Action (Option Booking)
confirm_done env slug tenant key none = pure none
confirm_done env slug tenant key (some b) = do
  modify (record_idempotency tenant.id "confirm" key)
  post_confirm env slug b.id
  pure (some b)

unfoldable pub confirm_held :
    Env → ℕ → ℕ → String → Tenant → TokenPayload → String → Booking → Action (Option Booking)
confirm_held env now now_in_tx slug tenant payload key booking = do
  raise_if (not (jti_matches booking.verify_token_jti payload.jti)) (forbidden "Token already used")
  raise_if (not (status_eq booking.status pending_verify)) (conflict "Invalid booking state")
  if not (hold_after now booking.held)
      then (modify_booking booking.id expire >> raise (conflict "Hold expired"))
      else do
        taken ← gets (slot_conflict now tenant.id booking)
        raise_if taken (conflict "Slot already taken")
        modify env.others
        done ← transaction (confirm_tx now_in_tx tenant.id booking.id payload.jti)
        confirm_done env slug tenant key done

unfoldable pub confirm_loaded :
    Env → ℕ → ℕ → String → Tenant → TokenPayload → String → Action (Option Booking)
confirm_loaded env now now_in_tx slug tenant payload key = do
  booking ←
      or_raise (← gets (λ db. find_booking payload.booking_id tenant.id db.bookings))
        (not_found "Booking not found")
  or_raise (← gets (find_customer booking.customer_id)) (not_found "Booking not found")
  or_raise (← gets (find_salesperson booking.salesperson_id)) (not_found "Booking not found")
  if status_eq booking.status confirmed
      then (modify (record_idempotency tenant.id "confirm" key) >> pure (some booking))
      else confirm_held env now now_in_tx slug tenant payload key booking

unfoldable pub confirm_booking : Env → ℕ → ℕ → String → String → String → Action (Option Booking)
confirm_booking env now now_in_tx slug token key = do
  raise_if (is_empty key) (bad_request "Idempotency-Key required")
  tenant ← or_raise (← gets (find_tenant slug)) (not_found "Tenant not found")
  payload ← verify_token_or_raise env now token "Hold expired"
  raise_if (not (purpose_eq payload.purpose verify)) (forbidden "Invalid token purpose")
  raise_if (not (payload.tenant_id == tenant.id)) (forbidden "Token tenant mismatch")
  existing ← gets (check_idempotency tenant.id "confirm" key)
  if existing
      then gets (λ db. find_booking payload.booking_id tenant.id db.bookings)
      else confirm_loaded env now now_in_tx slug tenant payload key
