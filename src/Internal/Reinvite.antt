-- ===== src/Internal/Reinvite.antt =====
-- `reinviteBookingInternal` (apps/api/src/services/booking.service.ts). The answer of Microsoft Graph is
-- a parameter: the new etag, or the exception.
pub mod Laws
use booking_zoom_connect.Prelude.{
  ℕ, String, ⊤, Bool, true, false, not, ◌||◌, Option, none, some, if◌then◌else◌,
}
use booking_zoom_connect.Store.{
  Tenant, Booking, EventType, reinvited, graph_patch_failed, find_booking,
}
use booking_zoom_connect.Service.{
  Action, Env, bad_request, not_found, pure, raise, gets, or_raise, raise_if, log_call,
  update_event_body, transaction, ◌>>=◌, ◌>>◌, is_blank, find_tenant, modify_booking,
}
use booking_zoom_connect.Reschedule.{
  add_event, set_reinvite, patch_etag, has_patchable, event_id_of,
}

-- The two transactions: after an answer, and after an exception.
unfoldable pub reinvite_done : ℕ → Tenant → Booking → Option String → Action ⊤
reinvite_done now tenant b (some etag) = transaction do
  modify_booking b.id (patch_etag etag)
  modify_booking b.id (set_reinvite false)
  add_event tenant.id b.id EventType.reinvited now
reinvite_done now tenant b none = do
  transaction do
    modify_booking b.id (set_reinvite true)
    add_event tenant.id b.id EventType.graph_patch_failed now
  raise (bad_request "Graph body patch failed")

unfoldable pub reinvite_loaded : Env → (String → Option String) → ℕ → Tenant → Booking → Action ⊤
reinvite_loaded env patched_body now tenant b = do
  raise_if (not env.graph_enabled) (bad_request "Graph is disabled")
  raise_if (is_blank tenant.m365_tenant_id) (bad_request "Tenant Microsoft Graph is not configured")
  raise_if (not (has_patchable b.graph_event)) (bad_request "Graph event is not available")
  log_call (update_event_body b.id)
  reinvite_done now tenant b (patched_body (event_id_of b.graph_event))

unfoldable pub reinvite_booking_internal :
    Env → (String → Option String) → ℕ → String → ℕ → Action ⊤
reinvite_booking_internal env patched_body now slug id = do
  tenant ← or_raise (← gets (find_tenant slug)) (not_found "Tenant not found")
  b ←
      or_raise (← gets (λ db. find_booking id tenant.id db.bookings))
        (not_found "Booking not found")
  reinvite_loaded env patched_body now tenant b
