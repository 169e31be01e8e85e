-- ===== src/Internal/Listing.antt =====
-- `listBookingsInternal`, `parseInternalDateParam` and `parseInternalLimit`
-- (apps/api/src/services/booking.service.ts). The database's sorting is a parameter; instants of the
-- answer stay numbers.
pub mod Laws
use booking_zoom_connect.Prelude.{
  ℕ, suc, String, Bool, true, false, not, ◌&&◌, ◌||◌, Option, none, some, List, [], ◌∷◌, ◌==◌, ltb,
  leb, min, max, if◌then◌else◌, find_many, take,
}
use booking_zoom_connect.Store.{Db, Booking, Salesperson, Customer, TrackingEvent, Meeting}
use booking_zoom_connect.Service.{
  Action, Env, Result, ok, err, bad_request, not_found, pure, lift, gets, or_raise, raise_if, ◌>>=◌,
  ◌>>◌, is_blank, is_empty, text_of, find_tenant, find_salesperson, find_customer,
}

-- A number of JavaScript, as far as its floor and finiteness go.
pub data Limit : Type 0 where
  missing_limit nan infinite : Limit
  negative natural : ℕ → Limit

unfoldable pub parse_internal_limit : Limit → Result ℕ
parse_internal_limit missing_limit = ok 100
parse_internal_limit nan = err (bad_request "limit must be a number")
parse_internal_limit infinite = err (bad_request "limit must be a number")
parse_internal_limit (negative n) = ok 1
parse_internal_limit (natural n) = ok (max 1 (min 500 n))

abbrev pub valid_date : Option ℕ → String → Result (Option ℕ)
valid_date none message = err (bad_request message)
valid_date (some t) message = ok (some t)

-- `parseInternalDateParam`, with its message
unfoldable pub parse_internal_date_param : Env → Option String → String → Result (Option ℕ)
parse_internal_date_param env value message =
    if is_blank value then ok none else valid_date (env.parse_iso (text_of value)) message

-- `fromUtc && toUtc && fromUtc > toUtc`
abbrev pub is_reversed : Option ℕ → Option ℕ → Bool
is_reversed (some from) (some to) = ltb to from
is_reversed _ _ = false

-- `gte` and `lte`
abbrev pub not_before : Option ℕ → ℕ → Bool
not_before none t = true
not_before (some from) t = leb from t

abbrev pub not_after : Option ℕ → ℕ → Bool
not_after none t = true
not_after (some to) t = leb t to

unfoldable pub is_listed : ℕ → Option ℕ → Option ℕ → Booking → Bool
is_listed tenant from to b =
    b.tenant_id == tenant && not_before from b.start_at_utc && not_after to b.start_at_utc

-- `orderBy`, in the database.
pub record Sorting : Type 0 where
  pub by_start : List Booking → List Booking
  pub by_time : List TrackingEvent → List TrackingEvent

pub record ListParams : Type 0 where
  pub from : Option String
  pub to : Option String
  pub limit : Limit
  pub include_events : Bool

-- A row with its relations; `events` only when they were asked for.
pub record BookingItem : Type 0 where
  pub booking : Booking
  pub customer : Option Customer
  pub salesperson : Option Salesperson
  pub join_url : Option String
  pub events : Option (List TrackingEvent)

abbrev pub join_url_of : Option Meeting → Option String
join_url_of none = none
join_url_of (some m) = if is_empty m.join_url then none else some m.join_url

abbrev pub has_booking : List Booking → ℕ → Bool
has_booking [] id = false
has_booking (b ∷ bs) id = b.id == id || has_booking bs id

-- `findMany({ where: { tenant_id, booking_id: { in: bookingIds } } })`
abbrev pub is_event_of : ℕ → List Booking → TrackingEvent → Bool
is_event_of tenant rows e = e.tenant_id == tenant && has_booking rows e.booking_id

-- `eventsByBooking.get(item.id) || []`
abbrev pub events_of : List TrackingEvent → Booking → List TrackingEvent
events_of events b = find_many (λ e. e.booking_id == b.id) events

abbrev pub item_of : Db → Booking → Option (List TrackingEvent) → BookingItem
item_of db b events = record {
  booking = b;
  customer = find_customer b.customer_id db;
  salesperson = find_salesperson b.salesperson_id db;
  join_url = join_url_of b.meeting;
  events = events;
}

abbrev pub items_with :
    (Booking → Option (List TrackingEvent)) → Db → List Booking → List BookingItem
items_with events db [] = []
items_with events db (b ∷ bs) = item_of db b (events b) ∷ items_with events db bs

unfoldable pub items_of : Sorting → ℕ → Bool → List Booking → Db → List BookingItem
items_of sorting tenant include_events rows db =
    let events = sorting.by_time (find_many (is_event_of tenant rows) db.tracking_events) in
    if not include_events
    then items_with (λ b. none) db rows
    else items_with (λ b. some (events_of events b)) db rows

unfoldable pub listed_rows : Sorting → ℕ → Option ℕ → Option ℕ → ℕ → Db → List Booking
listed_rows sorting tenant from to limit db =
    take limit (sorting.by_start (find_many (is_listed tenant from to) db.bookings))

unfoldable pub list_bookings_internal :
    Env → Sorting → String → ListParams → Action (List BookingItem)
list_bookings_internal env sorting slug p = do
  tenant ← or_raise (← gets (find_tenant slug)) (not_found "Tenant not found")
  from ← lift (parse_internal_date_param env p.from "from must be a valid ISO-8601 datetime")
  to ← lift (parse_internal_date_param env p.to "to must be a valid ISO-8601 datetime")
  raise_if (is_reversed from to) (bad_request "from must be less than or equal to to")
  limit ← lift (parse_internal_limit p.limit)
  rows ← gets (listed_rows sorting tenant.id from to limit)
  gets (items_of sorting tenant.id p.include_events rows)
