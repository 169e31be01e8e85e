-- ===== src/Internal/Listing/Laws.antt =====
-- About `listBookingsInternal` (apps/api/src/services/booking.service.ts).
use booking_zoom_connect.Prelude.{
  ℕ, String, ◌≡◌, refl, ◌⊎◌, inl, inr, ◌↔◌, Bool, true, false, Option, none, some, List, [], ◌∷◌,
  ◌≤◌, In, arith, find_many, find_many-In, find_many-test, take-In, length, length-take-le,
  Option-cases, subst, ◌==◌,
}
use booking_zoom_connect.Store.{Db, Tenant, Booking, TrackingEvent}
use booking_zoom_connect.Service.{Env, World, Result, ok, err, HttpError, ◌>>=◌, find_tenant}
use booking_zoom_connect.Internal.Listing.{
  Limit, missing_limit, nan, infinite, negative, natural, parse_internal_limit,
  parse_internal_date_param, is_listed, Sorting, ListParams, BookingItem, items_with, items_of,
  listed_rows, list_bookings_internal, events_of, is_event_of,
}

-- Sorting changes no row.
abbrev pub SortsRows : Sorting → Type 0
SortsRows sorting =
    ((l : List Booking) (b : Booking) → In b (sorting.by_start l) ↔ In b l)
    × ((l : List TrackingEvent) (e : TrackingEvent) → In e (sorting.by_time l) ↔ In e l)

-- The booking is one of the tenant's, with a start in the range.
pub record IsInRange (tenant : ℕ) (from to : Option ℕ) (db : Db) (b : Booking) : Type 0 where
  pub stored : In b db.bookings
  pub of_tenant : b.tenant_id ≡ tenant
  pub after_from : (t : ℕ) → from ≡ some t → t ≤ b.start_at_utc
  pub before_to : (t : ℕ) → to ≡ some t → b.start_at_utc ≤ t

-- The events of an item, if asked for, are those of its booking and the tenant.
abbrev pub HasEvents : ℕ → Bool → Db → BookingItem → Type 0
HasEvents tenant include_events db i =
    (include_events ≡ false) × (i.events ≡ none)
    ⊎ (include_events ≡ true)
      × ((es : List TrackingEvent) × (i.events ≡ some es)
          × ((e : TrackingEvent)
              → In e es
              → In e db.tracking_events × (e.tenant_id ≡ tenant) × (e.booking_id ≡ i.booking.id)))

limit-bounds : (l : Limit) (n : ℕ) → parse_internal_limit l ≡ ok n → (1 ≤ n) × (n ≤ 500)
unfolding parse_internal_limit
limit-bounds missing_limit n h = ground arith
limit-bounds nan n h = ground arith
limit-bounds infinite n h = ground arith
limit-bounds (negative m) n h = ground arith
limit-bounds (natural m) n h = ground arith

Result-cases :
    {A : Type 0} (r : Result A) → ((a : A) × (r ≡ ok a)) ⊎ ((e : HttpError) × (r ≡ err e))
Result-cases (ok a) = inl (a, refl)
Result-cases (err e) = inr (e, refl)

listed_rows-IsInRange :
    (sorting : Sorting) (tenant : ℕ) (from to : Option ℕ) (limit : ℕ) (db : Db) (b : Booking)
    → SortsRows sorting
    → In b (listed_rows sorting tenant from to limit db)
    → IsInRange tenant from to db b
unfolding listed_rows is_listed
listed_rows-IsInRange sorting tenant from to limit db b (rows, times) m =
    let m' = (rows _ b).0 (take-In limit _ b m) in
    let test = find_many-test (is_listed tenant from to) db.bookings b m' in
    record {
      stored = find_many-In _ db.bookings b m';
      of_tenant = ground arith;
      after_from = λ t e. ground arith;
      before_to = λ t e. ground arith;
    }

length-items_with :
    (f : Booking → Option (List TrackingEvent)) (db : Db) (bs : List Booking)
    → length (items_with f db bs) ≡ length bs
length-items_with f db [] = refl
length-items_with f db (b ∷ bs) = omega (arith, length-items_with f db bs)

items_with-In :
    (f : Booking → Option (List TrackingEvent)) (db : Db) (bs : List Booking) (i : BookingItem)
    → In i (items_with f db bs)
    → In i.booking bs × (i.events ≡ f i.booking)
items_with-In f db [] i m = absurd m
items_with-In f db (b ∷ bs) i (inl e) = (inl (ground arith), ground arith)
items_with-In f db (b ∷ bs) i (inr m) = let (mb, ev) = items_with-In f db bs i m in (inr mb, ev)

events_of-tenant :
    (sorting : Sorting) (tenant : ℕ) (rows : List Booking) (db : Db) (b : Booking)
    (e : TrackingEvent)
    → SortsRows sorting
    → In e (events_of (sorting.by_time (find_many (is_event_of tenant rows) db.tracking_events)) b)
    → In e db.tracking_events × (e.tenant_id ≡ tenant) × (e.booking_id ≡ b.id)
events_of-tenant sorting tenant rows db b e (keeps, times) m =
    let all = sorting.by_time (find_many (is_event_of tenant rows) db.tracking_events) in
    let own = find_many-test (λ (x : TrackingEvent). x.booking_id == b.id) all e m in
    let m' = (times _ e).0 (find_many-In (λ (x : TrackingEvent). x.booking_id == b.id) all e m) in
    let test = find_many-test (is_event_of tenant rows) db.tracking_events e m' in
    (find_many-In _ db.tracking_events e m', ground arith, ground arith)

items_of_lem :
    (sorting : Sorting) (tenant : ℕ) (include_events : Bool) (rows : List Booking) (db : Db)
    → SortsRows sorting
    → (length (items_of sorting tenant include_events rows db) ≡ length rows)
      × ((i : BookingItem)
          → In i (items_of sorting tenant include_events rows db)
          → In i.booking rows × HasEvents tenant include_events db i)
unfolding items_of
items_of_lem sorting tenant false rows db keeps = (
  length-items_with _ db rows,
  λ i m. let (mb, ev) = items_with-In _ db rows i m in (mb, inl (refl, ev)),
)
items_of_lem sorting tenant true rows db keeps = (
  length-items_with _ db rows,
  λ i m.
      let (mb, ev) = items_with-In _ db rows i m in
      (
        mb,
        inr (refl, (_, ev, λ e me. events_of-tenant sorting tenant rows db i.booking e keeps me)),
      ),
)

-- What a run that answers has found.
listing_runs :
    (env : Env) (sorting : Sorting) (slug : String) (p : ListParams) (w : World)
    (items : List BookingItem)
    → (list_bookings_internal env sorting slug p w).0 ≡ ok items
    → (tenant : Tenant) × (from : Option ℕ) × (to : Option ℕ) × (limit : ℕ) × (find_tenant slug w.db
        ≡ some tenant)
      × (parse_internal_date_param env p.from "from must be a valid ISO-8601 datetime" ≡ ok from)
      × (parse_internal_date_param env p.to "to must be a valid ISO-8601 datetime" ≡ ok to)
      × (parse_internal_limit p.limit ≡ ok limit)
      × (items
          ≡ items_of sorting tenant.id p.include_events
              (listed_rows sorting tenant.id from to limit w.db)
              w.db)
unfolding list_bookings_internal ◌>>=◌
listing_runs env sorting slug p w items h = elim (Option-cases (find_tenant slug w.db)) [
  | inl unknown ↦ ground arith
  | inr (tenant, known) ↦
      elim (Result-cases
        (parse_internal_date_param env p.from "from must be a valid ISO-8601 datetime")) [
          | inr (e, bad) ↦ ground arith
          | inl (from, ef) ↦
              elim (Result-cases
                (parse_internal_date_param env p.to "to must be a valid ISO-8601 datetime")) [
                  | inr (e, bad) ↦ ground arith
                  | inl (to, et) ↦ elim (Result-cases (parse_internal_limit p.limit)) [
                    | inr (e, bad) ↦ ground arith
                    | inl (limit, el) ↦ (tenant, from, to, limit, known, ef, et, el, ground arith)
                  ]
                ]
        ]
]

length-listed_rows :
    (sorting : Sorting) (tenant : ℕ) (from to : Option ℕ) (limit : ℕ) (db : Db)
    → length (listed_rows sorting tenant from to limit db) ≤ limit
unfolding listed_rows
length-listed_rows sorting tenant from to limit db = length-take-le limit _

-- When the database's sorting changes no row, a list that the endpoint answers with has at most 500
-- items; each is a booking of the tenant that starts no earlier than `from` and no later than `to`, where
-- these are given; and its events, if they were asked for, are of that booking and tenant.
pub list_bookings_internal_lem :
    (env : Env) (sorting : Sorting) (slug : String) (p : ListParams) (w : World)
    (items : List BookingItem)
    → SortsRows sorting
    → (list_bookings_internal env sorting slug p w).0 ≡ ok items
    → (tenant : Tenant) × (from : Option ℕ) × (to : Option ℕ) × (find_tenant slug w.db
        ≡ some tenant)
      × (parse_internal_date_param env p.from "from must be a valid ISO-8601 datetime" ≡ ok from)
      × (parse_internal_date_param env p.to "to must be a valid ISO-8601 datetime" ≡ ok to)
      × (length items ≤ 500)
      × ((i : BookingItem)
          → In i items
          → IsInRange tenant.id from to w.db i.booking
            × HasEvents tenant.id p.include_events w.db i)
list_bookings_internal_lem env sorting slug p w items keeps h =
    let (tenant, from, to, limit, known, ef, et, el, same) =
      listing_runs env sorting slug p w items h in
    let rows = listed_rows sorting tenant.id from to limit w.db in
    let (len, each) = items_of_lem sorting tenant.id p.include_events rows w.db keeps in
    let few = length-listed_rows sorting tenant.id from to limit w.db in
    let (some', most) = limit-bounds p.limit limit el in
    (
      tenant,
      from,
      to,
      known,
      ef,
      et,
      rw same (omega (arith, len, few, most)),
      λ i m.
          let (mb, ev) = each i (subst (λ (l : List BookingItem). In i l) same m) in
          (listed_rows-IsInRange sorting tenant.id from to limit w.db i.booking keeps mb, ev),
    )
