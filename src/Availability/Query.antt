-- ===== src/Availability/Query.antt =====
-- `getAvailability`, `getGraphBusyMap`, `getAvailabilityPublic` and `listSalespersonsPublic` of
-- apps/api/src/services/booking.service.ts. One instant stands for all readings of the clock in a
-- request, and the debugging output is left out. A loop that does not end is the result `none`.
pub mod Free
pub mod Held
pub mod Cache
pub mod Again
pub mod Gate
use booking_zoom_connect.Prelude.{
  ℕ, String, Bool, true, false, not, ◌&&◌, Option, none, some, List, [], ◌∷◌, ◌+◌, ◌==◌, ltb,
  find_many, length, if◌then◌else◌,
}
use booking_zoom_connect.Store.{Db, Tenant, Booking, Salesperson, conflicts_at}
use booking_zoom_connect.Service.{
  Action, Env, Result, ok, err, Slot, CacheKey, CacheEntry, Scope, union, of_salesperson, pure,
  lift, gets, gets_cache, raise_if, or_raise, modify_cache, ◌>>=◌, ◌>>◌, bad_request, not_found,
  find_tenant, is_empty, is_blank, text_of, or_text, is_some, key_eq, cache_delete,
  public_tenant_or_raise,
}
use booking_zoom_connect.Busy.{overlaps_busy}
use booking_zoom_connect.Hold.{candidates}
use booking_zoom_connect.Availability.Context.{
  Calendar, Context, Built, closed, endless, built, build_context,
}

abbrev pub chosen_zone : Option ℕ → List Salesperson → String
chosen_zone (some id) (s ∷ l) = s.timezone
chosen_zone _ _ = ""

-- `tzForAvailability`
abbrev pub zone_of : Option ℕ → List Salesperson → Tenant → String
zone_of chosen targets tenant =
    or_text (chosen_zone chosen targets) (or_text tenant.public_timezone "Asia/Tokyo")

abbrev pub scope_of : Option ℕ → Scope
scope_of none = union
scope_of (some id) = of_salesperson id

abbrev pub cache_key : ℕ → Option ℕ → String → CacheKey
cache_key tenant chosen date = record { tenant_id = tenant; scope = scope_of chosen; ymd = date }

-- `availabilityCache.get(key)`
unfoldable pub cache_get : CacheKey → List (CacheKey × CacheEntry) → Option CacheEntry
cache_get k [] = none
cache_get k ((j, e) ∷ c) = if key_eq j k then some e else cache_get k c

-- `availabilityCache.set(key, entry)`
unfoldable pub cache_set :
    CacheKey → CacheEntry → List (CacheKey × CacheEntry) → List (CacheKey × CacheEntry)
cache_set k e c = (k, e) ∷ cache_delete k c

-- `cached && cached.expiresAt > Date.now()`
abbrev pub if_fresh : ℕ → Option CacheEntry → Option CacheEntry
if_fresh now none = none
if_fresh now (some e) = if ltb now e.expires_at then some e else none

abbrev pub slots_or_none : Option (List Slot) → List Slot
slots_or_none none = []
slots_or_none (some l) = l

-- `getGraphBusyMap`, for one salesperson; a failing request counts as free.
unfoldable pub graph_busy_of : Env → Tenant → Context → Salesperson → List Slot
graph_busy_of env tenant ctx s =
    if not env.graph_enabled
    then []
    else if is_blank tenant.m365_tenant_id
    then []
    else if is_empty s.graph_user_id
    then []
    else slots_or_none
        (env.busy_slots (text_of tenant.m365_tenant_id) s.graph_user_id ctx.day_open ctx.day_end)

abbrev pub slot_of : Booking → Slot
slot_of b = record { start_at_utc = b.start_at_utc; end_at_utc = b.end_at_utc }

abbrev pub slots_of : List Booking → List Slot
slots_of [] = []
slots_of (b ∷ bs) = slot_of b ∷ slots_of bs

-- `dbBusyBySalesperson`, for one salesperson: the live rows that meet the day.
unfoldable pub db_busy_of : ℕ → ℕ → Context → Db → Salesperson → List Slot
db_busy_of now tenant ctx db s =
    slots_of (find_many (conflicts_at tenant s.id ctx.day_open ctx.day_end now) db.bookings)

unfoldable pub is_free : Env → ℕ → Tenant → Context → Db → Slot → Salesperson → Bool
is_free env now tenant ctx db slot s =
    if overlaps_busy ctx.buffer_minutes slot (graph_busy_of env tenant ctx s)
    then false
    else if overlaps_busy ctx.buffer_minutes slot (db_busy_of now tenant.id ctx db s)
    then false
    else true

unfoldable pub some_free : Env → ℕ → Tenant → Context → Db → List Salesperson → Slot → Bool
some_free env now tenant ctx db [] slot = false
some_free env now tenant ctx db (s ∷ l) slot =
    if is_free env now tenant ctx db slot s then true else some_free env now tenant ctx db l slot

abbrev pub cache_ttl : ℕ
cache_ttl = 45_000

abbrev pub entry_of : ℕ → List Slot → CacheEntry
entry_of now slots = record { expires_at = now + cache_ttl; slots = slots }

module _ (env : Env) (now : ℕ) (tenant : Tenant) (key : CacheKey) where
  unfoldable pub answer_fresh : List Salesperson → Context → Action (Option (List Slot))
  answer_fresh targets ctx = do
    slots ← gets (λ db. find_many (some_free env now tenant ctx db targets) ctx.slots)
    modify_cache (cache_set key (entry_of now slots))
    pure (some slots)

  unfoldable pub answer_cached :
      List Salesperson → Context → Option CacheEntry → Action (Option (List Slot))
  answer_cached targets ctx (some e) = pure (some e.slots)
  answer_cached targets ctx none = answer_fresh targets ctx

  unfoldable pub answer_built : List Salesperson → Built → Action (Option (List Slot))
  answer_built targets closed = pure (some [])
  answer_built targets endless = pure none
  answer_built targets (built ctx) = do
    cached ← gets_cache (cache_get key)
    answer_cached targets ctx (if_fresh now cached)

unfoldable pub answer_targets :
    Env → Calendar → ℕ → Tenant → Option ℕ → String → List Salesperson → Action (Option (List Slot))
answer_targets env cal now tenant chosen date targets = do
  day ←
      lift (build_context cal now tenant.public_business_hours date (zone_of chosen targets tenant))
  answer_built env now tenant (cache_key tenant.id chosen date) targets day

unfoldable pub get_availability :
    Env → Calendar → ℕ → String → Option ℕ → String → Action (Option (List Slot))
get_availability env cal now slug chosen date = do
  raise_if (is_empty date) (bad_request "date required")
  tenant ← or_raise (← gets (find_tenant slug)) (not_found "Tenant not found")
  targets ← gets (candidates env tenant.id chosen)
  raise_if (is_some chosen && length targets == 0) (not_found "Salesperson not found")
  if length targets == 0
      then pure (some [])
      else answer_targets env cal now tenant chosen date targets

abbrev pub slots_or_empty : Result (Option (List Slot)) → Option (List Slot)
slots_or_empty (ok r) = r
slots_or_empty (err e) = some []

-- `try { … } catch { return []; }`
unfoldable pub or_empty : Action (Option (List Slot)) → Action (Option (List Slot))
or_empty m w = let (r, w') = m w in (ok (slots_or_empty r), w')

unfoldable pub get_availability_public :
    Env → Calendar → ℕ → String → Option ℕ → String → Action (Option (List Slot))
get_availability_public env cal now slug chosen date = do
  public_tenant_or_raise slug
  or_empty (get_availability env cal now slug chosen date)

-- The answer of `listSalespersonsPublic` has the id, the name and the zone of each row.
abbrev pub public_salespersons : List Salesperson → List (ℕ × String × String)
public_salespersons [] = []
public_salespersons (s ∷ l) = (s.id, s.display_name, s.timezone) ∷ public_salespersons l

unfoldable pub list_salespersons_public : Env → String → Action (List (ℕ × String × String))
list_salespersons_public env slug = do
  tenant ← public_tenant_or_raise slug
  gets (λ db. public_salespersons (candidates env tenant.id none db))
