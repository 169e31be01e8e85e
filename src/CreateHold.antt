-- ===== src/CreateHold.antt =====
-- `BookingService.createHold` and `createHoldPublic`
-- (apps/api/src/services/booking.service.ts), round the transaction of `Hold`.
pub mod Safety
use booking_zoom_connect.Prelude.{
  ℕ, String, ⊤, Bool, false, not, ◌&&◌, ◌||◌, Option, none, some, List, [], ◌∷◌, ◌==◌, leb, str_eq,
  find_first, length, if◌then◌else◌, update_many,
}
use booking_zoom_connect.Store.{
  BookingStatus, Db, Tenant, Booking, Hold, Salesperson, Customer, has_id,
}
use booking_zoom_connect.Service.{
  Action, Env, Slot, Result, ok, err, unique_violation, raise, attempt, pure, lift, gets, raise_if,
  or_raise, modify, plain_error, ◌>>=◌, ◌>>◌, transaction, bad_request, not_found, conflict,
  find_tenant, find_salesperson, is_empty, is_blank, is_some, text_of, modify_booking,
  invalidate_for_start, public_tenant_or_raise,
}
use booking_zoom_connect.Busy.{overlaps_busy, parse_business_hours}
use booking_zoom_connect.Notes.{normalize_booking_mode, normalize_public_notes}
use booking_zoom_connect.Hold.{HoldRequest, candidates, hold_tx, is_hold_key}

abbrev pub is_customer : ℕ → String → Customer → Bool
is_customer tenant email c = c.tenant_id == tenant && str_eq c.email email

-- A field that the request leaves out keeps its value.
abbrev pub or_keep : Option String → Option String → Option String
or_keep none old = old
or_keep (some s) old = some s

unfoldable pub update_customer : ℕ → HoldRequest → Db → Db
update_customer tenant r db = record db {
  customers =
      update_many (is_customer tenant r.email)
        (λ c. record c { name = or_keep r.name c.name; company = or_keep r.company c.company })
        db.customers;
}

unfoldable pub insert_customer : ℕ → ℕ → HoldRequest → Db → Db
insert_customer id tenant r db = record db {
  customers =
      record { id = id; tenant_id = tenant; email = r.email; name = r.name; company = r.company }
      ∷ db.customers;
}

unfoldable pub upsert_known : Env → ℕ → HoldRequest → Option Customer → Action ℕ
upsert_known env tenant r none = do
  id ← gets env.new_customer_id
  modify (insert_customer id tenant r)
  pure id
upsert_known env tenant r (some c) = do modify (update_customer tenant r); pure c.id

-- `customer.upsert`; the result is the customer's id.
unfoldable pub upsert_customer : Env → ℕ → HoldRequest → Action ℕ
upsert_customer env tenant r = do
  known ← gets (λ db. find_first (is_customer tenant r.email) db.customers)
  upsert_known env tenant r known

abbrev pub busy_of : ℕ → Slot → Option (List Slot) → Bool
busy_of buffer slot none = false
busy_of buffer slot (some busy) = overlaps_busy buffer slot busy

-- `isSalespersonGraphBusyForSlot`: a failing request counts as free.
unfoldable pub is_graph_busy : Env → Tenant → ℕ → Slot → Salesperson → Bool
is_graph_busy env tenant buffer slot s =
    if not env.graph_enabled
    then false
    else if is_blank tenant.m365_tenant_id || is_empty s.graph_user_id
    then false
    else busy_of buffer slot (
        env.busy_slots (text_of tenant.m365_tenant_id) s.graph_user_id slot.start_at_utc
          slot.end_at_utc)

-- `graphBusyIds`
abbrev pub graph_busy_ids : Env → Tenant → ℕ → Slot → List Salesperson → List ℕ
graph_busy_ids env tenant buffer slot [] = []
graph_busy_ids env tenant buffer slot (s ∷ l) =
    let rest = graph_busy_ids env tenant buffer slot l in
    if is_graph_busy env tenant buffer slot s then s.id ∷ rest else rest

unfoldable pub invalidate_assigned : Env → ℕ → ℕ → Option Salesperson → Action ⊤
invalidate_assigned env tenant start none = pure tt
invalidate_assigned env tenant start (some s) =
    invalidate_for_start env tenant s.id s.timezone start

abbrev pub assigned_of : Option Salesperson → Option Salesperson → Option Salesperson
assigned_of (some s) other = some s
assigned_of none other = other

unfoldable pub hold_done : Env → ℕ → ℕ → List Salesperson → Booking → Action Booking
hold_done env tenant start available booking = do
  stored ← gets (find_salesperson booking.salesperson_id)
  invalidate_assigned env tenant start
      (assigned_of (find_first (λ s. s.id == booking.salesperson_id) available) stored)
  pure booking

-- The `catch`: a broken unique index looks for the key again.
unfoldable pub hold_settled :
    Env → ℕ → String → ℕ → List Salesperson → Result Booking → Action Booking
hold_settled env tenant key start available (ok booking) =
    hold_done env tenant start available booking
hold_settled env tenant key start available (err unique_violation) = do
  existing ← gets (λ db. find_first (is_hold_key tenant key) db.bookings)
  or_raise existing (conflict "Slot already booked")
hold_settled env tenant key start available (err e) = raise e

unfoldable pub hold_for : Env → ℕ → Tenant → HoldRequest → String → ℕ → ℕ → Action Booking
hold_for env now tenant r key start end = do
  mode ← lift (normalize_booking_mode r.booking_mode)
  customer ← upsert_customer env tenant.id r
  available ← gets (candidates env tenant.id r.salesperson_id)
  raise_if (is_some r.salesperson_id && length available == 0) (not_found "Salesperson not found")
  raise_if (length available == 0) (conflict "No active salesperson")
  let hours = parse_business_hours tenant.public_business_hours
  let busy =
      graph_busy_ids env tenant hours.buffer_minutes
        (record { start_at_utc = start; end_at_utc = end }) available
  modify env.others
  done ← attempt (
      transaction (
        hold_tx env
          (record {
            tenant_id = tenant.id;
            customer_id = customer;
            start_at = start;
            end_at = end;
            idempotency_key = key;
            now = now;
            booking_mode = mode;
            public_notes = normalize_public_notes r.public_notes;
          })
          r.salesperson_id busy))
  hold_settled env tenant.id key start available done

unfoldable pub create_hold : Env → ℕ → String → HoldRequest → String → Action Booking
create_hold env now slug r key = do
  raise_if (is_empty key) (bad_request "Idempotency-Key required")
  tenant ← or_raise (← gets (find_tenant slug)) (not_found "Tenant not found")
  start ← or_raise (env.parse_iso r.start_at) (plain_error "Invalid datetime")
  end ← or_raise (env.parse_iso r.end_at) (plain_error "Invalid datetime")
  raise_if (leb end start) (bad_request "invalid slot range")
  hold_for env now tenant r key start end

-- The answer of the endpoint; the slot and the status are the booking's.
pub record PublicHold : Type 0 where
  pub booking_id : ℕ
  pub public_confirm_token : String
  pub status : BookingStatus
  pub start_at_utc : ℕ
  pub end_at_utc : ℕ
  pub held : Option Hold

abbrev pub public_hold : Booking → String → PublicHold
public_hold b token = record {
  booking_id = b.id;
  public_confirm_token = token;
  status = b.status;
  start_at_utc = b.start_at_utc;
  end_at_utc = b.end_at_utc;
  held = b.held;
}

abbrev pub set_public_token : String → Booking → Booking
set_public_token token b = record b { public_confirm_token = some token }

abbrev pub token_of : Option Booking → Option String
token_of none = none
token_of (some b) = b.public_confirm_token

unfoldable pub public_answer : Env → Booking → Option String → Action PublicHold
public_answer env b token =
    if is_blank token
    then (do
      modify_booking b.id (set_public_token env.new_public_token)
      pure (public_hold b env.new_public_token))
    else pure (public_hold b (text_of token))

-- `createHoldPublic`: a token that the row has already is handed out again.
unfoldable pub create_hold_public : Env → ℕ → String → HoldRequest → String → Action PublicHold
create_hold_public env now slug r key = do
  public_tenant_or_raise slug
  booking ← create_hold env now slug r key
  row ← gets (λ db. find_first (has_id booking.id) db.bookings)
  public_answer env booking (token_of row)
