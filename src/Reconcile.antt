-- ===== src/Reconcile.antt =====
-- `GraphReconciliationService` (apps/api/src/services/graph-reconciliation.service.ts): what a change
-- that the sales side makes to a Graph event does to its booking. The answer of `getEvent` is a
-- parameter, no answer an exception. The audit log is not modelled.
pub mod Safety
use booking_zoom_connect.Prelude.{
  ℕ, String, ⊤, Bool, true, false, Option, none, some, ◌==◌, str_eq, find_first, if◌then◌else◌,
}
use booking_zoom_connect.Store.{
  canceled, Tenant, Booking, GraphEvent, EventType, event_deleted_by_sales, event_moved_by_sales,
}
use booking_zoom_connect.Service.{
  Action, pure, gets, or_raise, plain_error, ◌>>=◌, ◌>>◌, transaction, is_blank, modify_booking,
  modify_slot, Slot,
}
use booking_zoom_connect.Reschedule.{add_event}

-- `change_type` of the job.
pub data ChangeType : Type 0 where
  deleted updated other_change : ChangeType

abbrev pub is_event : String → Option GraphEvent → Bool
is_event resource none = false
is_event resource (some e) = str_eq e.event_id resource

abbrev pub has_event_id : String → Booking → Bool
has_event_id resource b = is_event resource b.graph_event

abbrev pub cancel_by_sales : Booking → Booking
cancel_by_sales b = record b { status = canceled; customer_notify_required = true }

abbrev pub move_by_sales : Slot → Booking → Booking
move_by_sales s b = record b {
  start_at_utc = s.start_at_utc;
  end_at_utc = s.end_at_utc;
  customer_reinvite_required = true;
}

unfoldable pub cancel_tx : ℕ → Booking → Action ⊤
cancel_tx now b = do
  modify_booking b.id cancel_by_sales
  add_event b.tenant_id b.id event_deleted_by_sales now

unfoldable pub move_tx : ℕ → Booking → Slot → Action ⊤
move_tx now b s = do
  modify_slot b (move_by_sales s)
  add_event b.tenant_id b.id event_moved_by_sales now

unfoldable pub reconcile_change : ℕ → Option Slot → ChangeType → Booking → Action ⊤
reconcile_change now event deleted b = transaction (cancel_tx now b)
reconcile_change now event updated b = do
  slot ← or_raise event (plain_error "graph event not read")
  transaction (move_tx now b slot)
reconcile_change now event other_change b = pure tt

abbrev pub m365_of : Option Tenant → Option String
m365_of none = none
m365_of (some t) = t.m365_tenant_id

unfoldable pub reconcile_booking : ℕ → Option Slot → ChangeType → Option Booking → Action ⊤
reconcile_booking now event change none = pure tt
reconcile_booking now event change (some b) = do
  tenant ← gets (λ db. find_first (λ t. t.id == b.tenant_id) db.tenants)
  if is_blank (m365_of tenant) then pure tt else reconcile_change now event change b

-- `handleWebhookJob`
unfoldable pub handle_webhook_job : ℕ → Option Slot → String → ChangeType → Action ⊤
handle_webhook_job now event resource change = do
  booking ← gets (λ db. find_first (has_event_id resource) db.bookings)
  reconcile_booking now event change booking
