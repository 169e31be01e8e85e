-- ===== src/Cancel.antt =====
-- `BookingService.cancelBooking` (apps/api/src/services/booking.service.ts). The requests to Graph and
-- Zoom are best effort: whether they fail makes no difference to the answer or to the database.
pub mod Outcome
pub mod Safety
use booking_zoom_connect.Prelude.{
  ℕ, String, ⊤, Bool, not, Option, none, some, ◌+◌, ◌*◌, ◌==◌, ltb, if◌then◌else◌,
}
use booking_zoom_connect.Store.{
  confirmed, canceled, Tenant, Booking, Salesperson, Meeting, GraphEvent, status_eq, find_booking,
}
use booking_zoom_connect.Service.{
  Action, Env, cancel, purpose_eq, pure, gets, raise_if, or_raise, modify, log_call, delete_event,
  delete_meeting, ◌>>=◌, ◌>>◌, bad_request, not_found, forbidden, conflict, find_tenant,
  find_salesperson, is_empty, modify_booking, drop_hold, check_idempotency, record_idempotency,
  verify_token_or_raise, invalidate_for_start,
}

-- CANCEL_DEADLINE_HOURS, in milliseconds.
abbrev pub cancel_deadline : ℕ
cancel_deadline = 24 * 60 * 60 * 1000

-- `DateTime.utc() > start.minus({ hours: 24 })`, with the difference moved to the left.
abbrev pub deadline_passed : ℕ → Booking → Bool
deadline_passed now b = ltb b.start_at_utc (now + cancel_deadline)

abbrev pub timezone_of : Option Salesperson → String
timezone_of none = "utc"
timezone_of (some s) = s.timezone

abbrev pub mark_canceled : Booking → Booking
mark_canceled b = record b { status = canceled }

unfoldable pub delete_graph_event : Booking → Option GraphEvent → Action ⊤
delete_graph_event b none = pure tt
delete_graph_event b (some _) = log_call (delete_event b.id)

unfoldable pub delete_zoom_meeting : Booking → Option Meeting → Action ⊤
delete_zoom_meeting b none = pure tt
delete_zoom_meeting b (some _) = log_call (delete_meeting b.id)

-- A booking that is canceled already, or a key that was used: only the hold and the cache go.
unfoldable pub cancel_again : Env → Tenant → Booking → String → Action String
cancel_again env tenant booking tz = do
  modify_booking booking.id drop_hold
  invalidate_for_start env tenant.id booking.salesperson_id tz booking.start_at_utc
  pure "canceled"

unfoldable pub cancel_confirmed : Env → Tenant → Booking → String → String → Action String
cancel_confirmed env tenant booking tz key = do
  modify_booking booking.id mark_canceled
  modify_booking booking.id drop_hold
  delete_graph_event booking booking.graph_event
  delete_zoom_meeting booking booking.meeting
  modify (record_idempotency tenant.id "cancel" key)
  invalidate_for_start env tenant.id booking.salesperson_id tz booking.start_at_utc
  pure "canceled"

unfoldable pub cancel_new : Env → ℕ → Tenant → Booking → String → String → String → Action String
cancel_new env now tenant booking tz token key = do
  raise_if (is_empty token) (bad_request "token required")
  payload ← verify_token_or_raise env now token "token expired"
  raise_if (not (purpose_eq payload.purpose cancel)) (forbidden "Invalid token purpose")
  raise_if (not (payload.booking_id == booking.id)) (forbidden "Token booking mismatch")
  raise_if (not (payload.tenant_id == tenant.id)) (forbidden "Token tenant mismatch")
  raise_if (not (status_eq booking.status confirmed)) (conflict "Invalid booking state")
  raise_if (deadline_passed now booking) (conflict "Cancel deadline passed")
  cancel_confirmed env tenant booking tz key

unfoldable pub cancel_booking : Env → ℕ → String → ℕ → String → String → Action String
cancel_booking env now slug id token key = do
  raise_if (is_empty key) (bad_request "Idempotency-Key required")
  tenant ← or_raise (← gets (find_tenant slug)) (not_found "Tenant not found")
  booking ←
      or_raise (← gets (λ db. find_booking id tenant.id db.bookings))
        (not_found "Booking not found")
  salesperson ← gets (find_salesperson booking.salesperson_id)
  if status_eq booking.status canceled
      then cancel_again env tenant booking (timezone_of salesperson)
      else do
        existing ← gets (check_idempotency tenant.id "cancel" key)
        if existing
            then cancel_again env tenant booking (timezone_of salesperson)
            else cancel_new env now tenant booking (timezone_of salesperson) token key
