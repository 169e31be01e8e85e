-- ===== src/Hold.antt =====
-- `BookingService.createHold`, `createHoldPublic` and `tryCreateHoldForSalespersonTx`
-- (apps/api/src/services/booking.service.ts). Rewriting a row of the slot may break the unique index on
-- active rows, and then the transaction fails. The insert cannot, since it is made where no row has the
-- slot; nor can the key of a hold, since no row has it.
pub mod Replay
pub mod Rivals
pub mod Safety
pub mod Loop
pub mod Indexed
pub mod Given
use booking_zoom_connect.Prelude.{
  ℕ, zero, suc, String, Bool, false, ◌&&◌, ◌||◌, Option, none, some, List, [], ◌∷◌, ◌+◌, ◌*◌, ◌%◌,
  ◌==◌, str_eq, find_first, find_many, length, get_elem?, if◌then◌else◌, update_many,
}
use booking_zoom_connect.Store.{
  hold, confirmed, Db, Tenant, Booking, Hold, Salesperson, status_eq, is_held, hold_after,
  conflicts_at, is_on,
}
use booking_zoom_connect.Service.{
  Action, Env, pure, raise, gets, raise_if, modify, plain_error, ◌>>=◌, ◌>>◌, conflict, is_some,
  modify_slot,
}

-- The body of the request.
pub record HoldRequest : Type 0 where
  pub salesperson_id : Option ℕ
  pub start_at : String
  pub end_at : String
  pub booking_mode : Option String
  pub public_notes : Option (List ℕ)
  pub email : String
  pub name : Option String
  pub company : Option String

-- The parameters of `tryCreateHoldForSalespersonTx`, but for the salesperson.
pub record HoldParams : Type 0 where
  pub tenant_id : ℕ
  pub customer_id : ℕ
  pub start_at : ℕ
  pub end_at : ℕ
  pub idempotency_key : String
  pub now : ℕ
  pub booking_mode : String
  pub public_notes : Option (List ℕ)

-- `calcHoldExpiresAtUtc`
abbrev pub hold_until : Env → ℕ → Hold
hold_until env now = record { expires_at_utc = now + env.hold_ttl_minutes * 60_000 }

-- The row that the slot has already: its data for the new customer.
abbrev pub rehold : Hold → HoldParams → Booking → Booking
rehold h p b = record b {
  customer_id = p.customer_id;
  status = hold;
  booking_mode = some p.booking_mode;
  public_notes = p.public_notes;
  idempotency_key = p.idempotency_key;
  verify_token_jti = none;
  held = some h;
}

abbrev pub new_booking : Env → HoldParams → ℕ → ℕ → Booking
new_booking env p salesperson id = record {
  id = id;
  tenant_id = p.tenant_id;
  salesperson_id = salesperson;
  customer_id = p.customer_id;
  start_at_utc = p.start_at;
  end_at_utc = p.end_at;
  status = hold;
  idempotency_key = p.idempotency_key;
  verify_token_jti = none;
  public_confirm_token = none;
  created_at = p.now;
  customer_reinvite_required = false;
  customer_notify_required = false;
  public_notes = p.public_notes;
  booking_mode = some p.booking_mode;
  held = some (hold_until env p.now);
  meeting = none;
  graph_event = none;
}

-- The `findFirst` for a row with the very slot.
abbrev pub is_same_slot : HoldParams → ℕ → Booking → Bool
is_same_slot p salesperson b =
    is_on p.tenant_id salesperson b && b.start_at_utc == p.start_at && b.end_at_utc == p.end_at

-- `slotExisting.status === confirmed || holdValid`
abbrev pub is_taken : ℕ → Booking → Bool
is_taken now b = status_eq b.status confirmed || is_held b.status && hold_after now b.held

unfoldable pub insert_booking : Booking → Db → Db
insert_booking b db = record db { bookings = b ∷ db.bookings }

unfoldable pub hold_free : Env → HoldParams → ℕ → Action (Option Booking)
hold_free env p salesperson = do
  rival ← gets (λ db.
      find_first (conflicts_at p.tenant_id salesperson p.start_at p.end_at p.now) db.bookings)
  if is_some rival then pure none else do
    id ← gets env.new_booking_id
    modify (insert_booking (new_booking env p salesperson id))
    pure (some (new_booking env p salesperson id))

unfoldable pub hold_slot : Env → HoldParams → ℕ → Option Booking → Action (Option Booking)
hold_slot env p salesperson none = hold_free env p salesperson
hold_slot env p salesperson (some old) = if is_taken p.now old then pure none else do
  modify_slot old (rehold (hold_until env p.now) p)
  pure (some (rehold (hold_until env p.now) p old))

-- `tryCreateHoldForSalespersonTx`
unfoldable pub try_create_hold : Env → HoldParams → ℕ → Action (Option Booking)
try_create_hold env p salesperson = do
  existing ← gets (λ db. find_first (is_same_slot p salesperson) db.bookings)
  hold_slot env p salesperson existing

-- `tenant.update({ data: { rr_cursor } })`
unfoldable pub set_cursor : ℕ → ℕ → Db → Db
set_cursor tenant cursor db = record db {
  tenants = update_many (λ t. t.id == tenant) (λ t. record t { rr_cursor = cursor }) db.tenants;
}

abbrev pub has_busy : ℕ → List ℕ → Bool
has_busy id [] = false
has_busy id (x ∷ xs) = x == id || has_busy id xs

-- The index that a round of the loop looks at.
abbrev pub index_at : Bool → ℕ → ℕ → ℕ → ℕ
index_at chosen start offset n = if chosen then offset else (start + offset) % n

unfoldable pub found_or : Bool → ℕ → ℕ → Action Booking → Option Booking → Action Booking
found_or chosen tenant cursor next none = next
found_or chosen tenant cursor next (some b) =
    if chosen then pure b else (modify (set_cursor tenant cursor) >> pure b)

unfoldable pub try_one :
    Env → HoldParams → Bool → List ℕ → ℕ → ℕ → Action Booking → Option ℕ → Action Booking
try_one env p chosen busy idx n next none = raise (plain_error "salesperson is undefined")
try_one env p chosen busy idx n next (some s) = if has_busy s busy then next else do
  created ← try_create_hold env p s
  found_or chosen p.tenant_id ((idx + 1) % n) next created

-- The loop over the offsets; the first argument is how many are left.
unfoldable pub assign : Env → HoldParams → Bool → List ℕ → List ℕ → ℕ → ℕ → ℕ → Action Booking
assign env p chosen busy ordered start zero offset = raise (conflict "Slot already booked")
assign env p chosen busy ordered start (suc left) offset =
    let next = assign env p chosen busy ordered start left (suc offset) in
    let idx = index_at chosen start offset (length ordered) in
    try_one env p chosen busy idx (length ordered) next (get_elem? ordered idx)

abbrev pub is_candidate : ℕ → Option ℕ → Salesperson → Bool
is_candidate tenant none s = s.tenant_id == tenant && s.active
is_candidate tenant (some id) s = s.tenant_id == tenant && s.active && s.id == id

-- The active salespersons of the tenant, or the one that was asked for.
unfoldable pub candidates : Env → ℕ → Option ℕ → Db → List Salesperson
candidates env tenant chosen db =
    env.by_display_name (find_many (is_candidate tenant chosen) db.salespersons)

abbrev pub ids_of : List Salesperson → List ℕ
ids_of [] = []
ids_of (s ∷ l) = s.id ∷ ids_of l

abbrev pub cursor_of : Option Tenant → ℕ
cursor_of none = 0
cursor_of (some t) = t.rr_cursor

-- `((t?.rr_cursor ?? 0) % n + n) % n`, or 0 for a chosen salesperson.
abbrev pub start_index : Bool → ℕ → ℕ → ℕ
start_index chosen cursor n = if chosen then 0 else (cursor % n + n) % n

abbrev pub is_hold_key : ℕ → String → Booking → Bool
is_hold_key tenant key b = b.tenant_id == tenant && str_eq b.idempotency_key key

unfoldable pub hold_new : Env → HoldParams → Option ℕ → List ℕ → Action Booking
hold_new env p chosen busy = do
  ordered ← gets (candidates env p.tenant_id chosen)
  raise_if (length ordered == 0) (conflict "No active salesperson")
  tenant ← gets (λ db. find_first (λ t. t.id == p.tenant_id) db.tenants)
  assign env p (is_some chosen) busy (ids_of ordered)
      (start_index (is_some chosen) (cursor_of tenant) (length ordered)) (length ordered) 0

unfoldable pub hold_known : Env → HoldParams → Option ℕ → List ℕ → Option Booking → Action Booking
hold_known env p chosen busy (some b) = pure b
hold_known env p chosen busy none = hold_new env p chosen busy

-- The body of the transaction.
unfoldable pub hold_tx : Env → HoldParams → Option ℕ → List ℕ → Action Booking
hold_tx env p chosen busy = do
  existing ← gets (λ db. find_first (is_hold_key p.tenant_id p.idempotency_key) db.bookings)
  hold_known env p chosen busy existing
