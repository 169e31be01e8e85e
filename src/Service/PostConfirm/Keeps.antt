-- ===== src/Service/PostConfirm/Keeps.antt =====
-- About `runPostConfirmBestEffort` (apps/api/src/services/booking.service.ts) and invariants.
use booking_zoom_connect.Prelude.{ℕ, String, Bool, true, Option, none, some}
use booking_zoom_connect.Store.{Db, Tenant, Booking, Salesperson, GraphEvent}
use booking_zoom_connect.Service.{Env, modify_booking}
use booking_zoom_connect.Service.Keeps.{Keeps, keeps_rules}
use booking_zoom_connect.Service.PostConfirm.{
  store_event, ensure_graph_event, send_confirmation_email, post_confirm_relations,
  post_confirm_booking, post_confirm_tenant, post_confirm, with_event, notify,
}

module _ {I : Db → Type 0}
    (event_kept : (id : ℕ) (e : GraphEvent) → Keeps I (modify_booking id (with_event e)))
    (notify_kept : (id : ℕ) (r : Bool) → Keeps I (modify_booking id (notify r))) where
  store_event-Keeps :
      (id : ℕ) (organizer : String) (o : Option GraphEvent) → Keeps I (store_event id organizer o)
  unfolding store_event
  store_event-Keeps id organizer none = search keeps_rules
  store_event-Keeps id organizer (some e) = event_kept id _

  pub ensure_graph_event-Keeps :
      (env : Env) (t : Tenant) (b : Booking) (s : Salesperson)
      → Keeps I (ensure_graph_event env t b s)
  unfolding ensure_graph_event
  ensure_graph_event-Keeps env t b s = search (keeps_rules, store_event-Keeps) depth 9

  pub send_confirmation_email-Keeps :
      (env : Env) (t : Tenant) (b : Booking) → Keeps I (send_confirmation_email env t b)
  unfolding send_confirmation_email
  send_confirmation_email-Keeps env t b = search (keeps_rules, notify_kept)

  relations-Keeps :
      (env : Env) (t : Tenant) (b : Booking) (s : Option Salesperson) (c : Bool)
      → Keeps I (post_confirm_relations env t b s c)
  unfolding post_confirm_relations
  relations-Keeps env t b (some s) true =
      search (keeps_rules, ensure_graph_event-Keeps, send_confirmation_email-Keeps)
  relations-Keeps env t b _ _ = search keeps_rules

  booking-Keeps :
      (env : Env) (t : Tenant) (b : Option Booking) → Keeps I (post_confirm_booking env t b)
  unfolding post_confirm_booking
  booking-Keeps env t none = search keeps_rules
  booking-Keeps env t (some b) = search (keeps_rules, relations-Keeps)

  tenant-Keeps : (env : Env) (id : ℕ) (t : Option Tenant) → Keeps I (post_confirm_tenant env id t)
  unfolding post_confirm_tenant
  tenant-Keeps env id none = search keeps_rules
  tenant-Keeps env id (some t) = search (keeps_rules, booking-Keeps)

  pub post_confirm-Keeps : (env : Env) (slug : String) (id : ℕ) → Keeps I (post_confirm env slug id)
  unfolding post_confirm
  post_confirm-Keeps env slug id = search (keeps_rules, tenant-Keeps)
