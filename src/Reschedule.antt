-- ===== src/Reschedule.antt =====
-- `BookingService.rescheduleBooking` and the Graph patch that follows it
-- (apps/api/src/services/booking.service.ts). As in `confirmBooking`, other requests may commit
-- between the first reads and the transaction.
pub mod Outcome
pub mod Safety
pub mod Stale
use booking_zoom_connect.Prelude.{
  ℕ, String, ⊤, Bool, true, false, not, ◌&&◌, ◌||◌, Option, none, some, ◌∷◌, ◌==◌, leb, find_first,
  if◌then◌else◌,
}
use booking_zoom_connect.Store.{
  confirmed, Tenant, Booking, GraphEvent, EventType, status_eq, is_held, hold_after, overlaps,
  is_on, has_id, find_booking,
}
use booking_zoom_connect.Service.{
  Action, Env, reschedule, purpose_eq, pure, gets, raise_if, or_raise, modify, log_call,
  update_event_times, plain_error, ◌>>=◌, ◌>>◌, transaction, bad_request, not_found, forbidden,
  conflict, find_tenant, find_salesperson, is_empty, is_blank, modify_booking, modify_slot,
  check_idempotency, record_idempotency, verify_token_or_raise, invalidate_for_start,
}
use booking_zoom_connect.Cancel.{deadline_passed, timezone_of}

-- The answer of the endpoint.
pub record Rescheduled : Type 0 where
  pub booking_id : ℕ
  pub old_start_at_utc : ℕ
  pub old_end_at_utc : ℕ
  pub new_start_at_utc : ℕ
  pub new_end_at_utc : ℕ

abbrev pub rescheduled_to : Booking → ℕ → ℕ → Rescheduled
rescheduled_to b start end = record {
  booking_id = b.id;
  old_start_at_utc = b.start_at_utc;
  old_end_at_utc = b.end_at_utc;
  new_start_at_utc = start;
  new_end_at_utc = end;
}

abbrev pub move_to : ℕ → ℕ → Booking → Booking
move_to start end b = record b { start_at_utc = start; end_at_utc = end }

abbrev pub same_slot : ℕ → ℕ → Booking → Bool
same_slot start end b = b.start_at_utc == start && b.end_at_utc == end

unfoldable pub add_event : ℕ → ℕ → EventType → ℕ → Action ⊤
add_event tenant booking type now = modify (λ db. record db {
  tracking_events =
      record { tenant_id = tenant; booking_id = booking; type = type; occurred_at_utc = now }
      ∷ db.tracking_events;
})

-- `canPatchGraphEvent`
abbrev pub has_patchable : Option GraphEvent → Bool
has_patchable none = false
has_patchable (some e) = not (is_empty e.organizer_user_id) && not (is_empty e.event_id)

unfoldable pub can_patch : Env → Tenant → Booking → Bool
can_patch env tenant b =
    env.graph_enabled && not (is_blank tenant.m365_tenant_id) && has_patchable b.graph_event

abbrev pub set_reinvite : Bool → Booking → Booking
set_reinvite required b = record b { customer_reinvite_required = required }

abbrev pub with_etag : String → Option GraphEvent → Option GraphEvent
with_etag etag none = none
with_etag etag (some e) = some (record e { etag = etag })

abbrev pub patch_etag : String → Booking → Booking
patch_etag etag b = record b { graph_event = with_etag etag b.graph_event }

-- `patchGraphEventTimesBestEffort`, after the answer of Graph; no answer is an exception.
unfoldable pub patched : ℕ → Tenant → Booking → Option String → Action ⊤
patched now tenant b (some etag) = do
  modify_booking b.id (patch_etag etag)
  modify_booking b.id (set_reinvite false)
patched now tenant b none = do
  modify_booking b.id (set_reinvite true)
  add_event tenant.id b.id EventType.graph_patch_failed now

abbrev pub event_id_of : Option GraphEvent → String
event_id_of none = ""
event_id_of (some e) = e.event_id

unfoldable pub patch_event_times : Env → ℕ → Tenant → Booking → Action ⊤
patch_event_times env now tenant b = do
  log_call (update_event_times b.id)
  patched now tenant b (env.patched_etag (event_id_of b.graph_event))

-- The `where` of the conflict query in the transaction: it does not look at when a hold runs out.
unfoldable pub in_the_way : ℕ → ℕ → Booking → Booking → Bool
in_the_way start end b o =
    not (o.id == b.id)
    && is_on b.tenant_id b.salesperson_id o
    && overlaps start end o
    && (status_eq o.status confirmed || is_held o.status)

-- The first such row blocks the move if it is confirmed or its hold has not run out.
abbrev pub blocks : ℕ → Option Booking → Bool
blocks now none = false
blocks now (some o) = status_eq o.status confirmed || is_held o.status && hold_after now o.held

unfoldable pub move_latest : ℕ → ℕ → ℕ → Booking → Action Rescheduled
move_latest now start end latest = do
  raise_if (not (status_eq latest.status confirmed)) (conflict "Invalid booking state")
  if same_slot start end latest
      then pure (rescheduled_to latest latest.start_at_utc latest.end_at_utc)
      else do
        other ← gets (λ db. find_first (in_the_way start end latest) db.bookings)
        raise_if (blocks now other) (conflict "Slot already taken")
        modify_slot latest (move_to start end)
        add_event latest.tenant_id latest.id EventType.rescheduled now
        pure (rescheduled_to latest start end)

-- The body of the transaction.
unfoldable pub reschedule_tx : ℕ → ℕ → ℕ → ℕ → Action Rescheduled
reschedule_tx now id start end = do
  latest ←
      or_raise (← gets (λ db. find_first (has_id id) db.bookings)) (not_found "Booking not found")
  move_latest now start end latest

unfoldable pub patch_if : Bool → Env → ℕ → Tenant → Booking → Action ⊤
patch_if c env now tenant b = if c then patch_event_times env now tenant b else pure tt

unfoldable pub reschedule_same : Env → ℕ → Tenant → Booking → ℕ → ℕ → String → Action Rescheduled
reschedule_same env now tenant booking start end key = do
  patch_if (booking.customer_reinvite_required && can_patch env tenant booking) env now tenant
      booking
  modify (record_idempotency tenant.id "reschedule" key)
  pure (rescheduled_to booking start end)

unfoldable pub reschedule_moved : Env → ℕ → Tenant → Booking → ℕ → ℕ → String → Action Rescheduled
reschedule_moved env now tenant booking start end key = do
  modify env.others
  result ← transaction (reschedule_tx now booking.id start end)
  modify (record_idempotency tenant.id "reschedule" key)
  patch_if (can_patch env tenant booking) env now tenant booking
  salesperson ← gets (find_salesperson booking.salesperson_id)
  invalidate_for_start env tenant.id booking.salesperson_id (timezone_of salesperson)
      booking.start_at_utc
  invalidate_for_start env tenant.id booking.salesperson_id (timezone_of salesperson) start
  pure result

unfoldable pub reschedule_loaded : Env → ℕ → Tenant → Booking → ℕ → ℕ → String → Action Rescheduled
reschedule_loaded env now tenant booking start end key = do
  raise_if (leb end start) (bad_request "invalid slot range")
  existing ← gets (check_idempotency tenant.id "reschedule" key)
  if existing then pure (rescheduled_to booking start end) else do
    raise_if (not (status_eq booking.status confirmed)) (conflict "Invalid booking state")
    raise_if (deadline_passed now booking) (conflict "Reschedule deadline passed")
    if same_slot start end booking
        then reschedule_same env now tenant booking start end key
        else reschedule_moved env now tenant booking start end key

unfoldable pub reschedule_booking :
    Env → ℕ → String → ℕ → String → String → String → String → Action Rescheduled
reschedule_booking env now slug id token new_start new_end key = do
  raise_if (is_empty key) (bad_request "Idempotency-Key required")
  tenant ← or_raise (← gets (find_tenant slug)) (not_found "Tenant not found")
  raise_if (is_empty token) (bad_request "token required")
  payload ← verify_token_or_raise env now token "token expired"
  raise_if (not (purpose_eq payload.purpose reschedule)) (forbidden "Invalid token purpose")
  raise_if (not (payload.booking_id == id)) (forbidden "Token booking mismatch")
  raise_if (not (payload.tenant_id == tenant.id)) (forbidden "Token tenant mismatch")
  booking ←
      or_raise (← gets (λ db. find_booking id tenant.id db.bookings))
        (not_found "Booking not found")
  start ← or_raise (env.parse_iso new_start) (plain_error "Invalid datetime")
  end ← or_raise (env.parse_iso new_end) (plain_error "Invalid datetime")
  reschedule_loaded env now tenant booking start end key
