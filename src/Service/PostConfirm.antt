-- ===== src/Service/PostConfirm.antt =====
-- What follows a confirmation: the Graph event and the confirmation mail, both best effort
-- (runPostConfirmBestEffort, ensureGraphEventForConfirmedBookingBestEffort and
-- sendConfirmationEmailBestEffort of apps/api/src/services/booking.service.ts). The mail's text is
-- not modelled, only that it is sent.
pub mod Keeps
use booking_zoom_connect.Prelude.{
  ℕ, String, ⊤, Bool, true, false, not, ◌||◌, Option, none, some, if◌then◌else◌,
}
use booking_zoom_connect.Store.{Tenant, Booking, Salesperson, GraphEvent, find_booking}
use booking_zoom_connect.Service.{
  Action, Env, pure, gets, log_call, ◌>>=◌, ◌>>◌, create_event, send_mail, find_tenant,
  find_salesperson, find_customer, is_blank, is_empty, is_some, modify_booking,
}

abbrev pub with_event : GraphEvent → Booking → Booking
with_event e b = record b { graph_event = some e }

abbrev pub notify : Bool → Booking → Booking
notify required b = record b { customer_notify_required = required }

abbrev has_event : Option GraphEvent → Bool
has_event none = false
has_event (some e) = not (is_empty e.event_id)

-- The upsert, or nothing when `createEvent` throws.
unfoldable pub store_event : ℕ → String → Option GraphEvent → Action ⊤
store_event id organizer none = pure tt
store_event id organizer (some e) =
    modify_booking id (with_event (record e { organizer_user_id = organizer }))

unfoldable pub ensure_graph_event : Env → Tenant → Booking → Salesperson → Action ⊤
ensure_graph_event env tenant booking salesperson =
    if not env.graph_enabled
    then pure tt
    else if is_blank tenant.m365_tenant_id || is_empty salesperson.graph_user_id
    then pure tt
    else if has_event booking.graph_event
    then pure tt
    else do
      log_call (create_event booking.id)
      store_event booking.id salesperson.graph_user_id (env.created_event booking.id)

unfoldable pub send_confirmation_email : Env → Tenant → Booking → Action ⊤
send_confirmation_email env tenant booking =
    if not env.graph_enabled || is_blank tenant.m365_tenant_id
    then modify_booking booking.id (notify true)
    else do
      log_call (send_mail booking.id)
      modify_booking booking.id (notify (not (env.mail_sent booking.id)))

unfoldable pub post_confirm_relations :
    Env → Tenant → Booking → Option Salesperson → Bool → Action ⊤
post_confirm_relations env tenant booking (some salesperson) true = do
  ensure_graph_event env tenant booking salesperson
  send_confirmation_email env tenant booking
post_confirm_relations env tenant booking _ _ = pure tt

unfoldable pub post_confirm_booking : Env → Tenant → Option Booking → Action ⊤
post_confirm_booking env tenant none = pure tt
post_confirm_booking env tenant (some booking) = do
  salesperson ← gets (find_salesperson booking.salesperson_id)
  customer ← gets (find_customer booking.customer_id)
  post_confirm_relations env tenant booking salesperson (is_some customer)

unfoldable pub post_confirm_tenant : Env → ℕ → Option Tenant → Action ⊤
post_confirm_tenant env id none = pure tt
post_confirm_tenant env id (some tenant) = do
  booking ← gets (λ db. find_booking id tenant.id db.bookings)
  post_confirm_booking env tenant booking

unfoldable pub post_confirm : Env → String → ℕ → Action ⊤
post_confirm env slug id = do tenant ← gets (find_tenant slug); post_confirm_tenant env id tenant
