-- ===== src/Reconcile/Safety.antt =====
-- About `handleWebhookJob` (apps/api/src/services/graph-reconciliation.service.ts).
use booking_zoom_connect.Prelude.{
  ℕ, String, ◌≡◌, ◌⊎◌, inl, inr, true, In, none, some, arith, false, find_first, ◌==◌,
}
use booking_zoom_connect.Service.Slots.{modify_slot_decides}
use booking_zoom_connect.Store.{Booking, shares_slot, Tenant, update_booking}
use booking_zoom_connect.Service.{
  Slot, World, err, unique_violation, plain_error, is_blank, transaction, modify_booking, ◌>>=◌,
}
use booking_zoom_connect.Reschedule.{add_event}
use booking_zoom_connect.Reconcile.{
  deleted, updated, has_event_id, cancel_by_sales, move_by_sales, cancel_tx, move_tx,
  reconcile_change, reconcile_booking, handle_webhook_job,
}

-- For the booking that has the event, of a tenant that is set up for Graph: a deleted event cancels
-- the booking and asks for a notice; an updated event moves the booking to the event's slot and asks
-- for a new invitation, whatever other bookings overlap it, unless the booking is active and another
-- active row of the salesperson has exactly that slot: then the database refuses, the job fails and
-- nothing changes; and if the event cannot be read, the job fails and nothing changes. No other row
-- changes.
pub reconcile_decides :
    (now : ℕ) (s : Slot) (resource : String) (b : Booking) (t : Tenant) (w : World)
    → find_first (has_event_id resource) w.db.bookings ≡ some b
    → find_first (λ t. t.id == b.tenant_id) w.db.tenants ≡ some t
    → is_blank t.m365_tenant_id ≡ false
    → ((handle_webhook_job now (some s) resource deleted w).1.db.bookings
        ≡ update_booking b.id cancel_by_sales w.db.bookings)
      × (((o : Booking) × In o w.db.bookings
            × (shares_slot (move_by_sales s b) o ≡ true)
            × (handle_webhook_job now (some s) resource updated w ≡ (err unique_violation, w)))
          ⊎ (((o : Booking) → In o w.db.bookings → shares_slot (move_by_sales s b) o ≡ false)
              × ((handle_webhook_job now (some s) resource updated w).1.db.bookings
                  ≡ update_booking b.id (move_by_sales s) w.db.bookings)))
      × (handle_webhook_job now none resource updated w
          ≡ (err (plain_error "graph event not read"), w))
unfolding handle_webhook_job reconcile_booking reconcile_change cancel_tx move_tx add_event
    modify_booking transaction ◌>>=◌
reconcile_decides now s resource b t w found tenant set_up = (
  ground arith,
  elim (modify_slot_decides b (move_by_sales s) w) [
    | inl (o, m, shared, refused) ↦ inl (o, m, shared, ground arith)
    | inr (free, wrote) ↦ inr (free, ground arith)
  ],
  ground arith,
)
