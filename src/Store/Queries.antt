-- ===== src/Store/Queries.antt =====
-- The conditions of the services' queries on bookings, and the updates by id.
use booking_zoom_connect.Prelude.{
  ℕ, Bool, true, false, not, ◌&&◌, ◌||◌, Option, none, some, List, ltb, ◌==◌, find_first,
  update_many,
}
use booking_zoom_connect.Store.Tables.{
  BookingStatus, hold, pending_verify, confirmed, canceled, expired, Booking, Hold,
}

abbrev pub status_eq : BookingStatus → BookingStatus → Bool
status_eq hold hold = true
status_eq pending_verify pending_verify = true
status_eq confirmed confirmed = true
status_eq canceled canceled = true
status_eq expired expired = true
status_eq _ _ = false

-- `status: { in: [hold, pending_verify] }`
abbrev pub is_held : BookingStatus → Bool
is_held hold = true
is_held pending_verify = true
is_held _ = false

-- `hold: { is: { expires_at_utc: { gt: now } } }`
abbrev pub hold_after : ℕ → Option Hold → Bool
hold_after now none = false
hold_after now (some h) = ltb now h.expires_at_utc

-- The `OR` of the conflict queries: confirmed, or held by a hold that has not run out.
abbrev pub is_live : ℕ → Booking → Bool
is_live now b = status_eq b.status confirmed || is_held b.status && hold_after now b.held

-- `start_at_utc: { lt: end }, end_at_utc: { gt: start }`
abbrev pub overlaps : ℕ → ℕ → Booking → Bool
overlaps start end b = ltb b.start_at_utc end && ltb start b.end_at_utc

abbrev pub is_on : ℕ → ℕ → Booking → Bool
is_on tenant salesperson b = b.tenant_id == tenant && b.salesperson_id == salesperson

-- The rows that conflict with a slot of a salesperson; `except` is the `NOT: { id }` of the query.
unfoldable pub conflicts_at : ℕ → ℕ → ℕ → ℕ → ℕ → Booking → Bool
conflicts_at tenant salesperson start end now b =
    is_on tenant salesperson b && overlaps start end b && is_live now b

-- The `WHERE` of the index `bookings_active_slot_unique`.
abbrev pub is_active : Booking → Bool
is_active b = status_eq b.status confirmed || is_held b.status

-- Another active row that has all columns of the index in common with `b`.
unfoldable pub shares_slot : Booking → Booking → Bool
shares_slot b o =
    not (o.id == b.id)
    && is_active b
    && is_active o
    && is_on b.tenant_id b.salesperson_id o
    && o.start_at_utc == b.start_at_utc
    && o.end_at_utc == b.end_at_utc

abbrev pub has_id : ℕ → Booking → Bool
has_id id b = b.id == id

-- `findFirst({ where: { id, tenant_id } })`
unfoldable pub find_booking : ℕ → ℕ → List Booking → Option Booking
find_booking id tenant = find_first (λ b. b.id == id && b.tenant_id == tenant)

-- `update({ where: { id }, data })`
unfoldable pub update_booking : ℕ → (Booking → Booking) → List Booking → List Booking
update_booking id f = update_many (has_id id) f
