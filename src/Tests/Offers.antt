-- ===== src/Tests/Offers.antt =====
-- Availability on the small tenant, with a calendar in UTC and a day of two slots and a break.
use booking_zoom_connect.Prelude.{
  ℕ, ◌≡◌, ◌≢◌, refl, ◌⊎◌, inl, true, false, Option, none, some, List, [], ◌∷◌, ◌+◌, ◌*◌, ◌/◌, ◌%◌,
  ◌<◌, ◌≤◌, arith, codes, str_eq, find_first, find_many, if◌then◌else◌,
}
use booking_zoom_connect.Store.{Tenant, BusinessHours, DayConfig, day, Db}
use booking_zoom_connect.Service.{
  World, Slot, ok, err, not_found, CacheKey, find_tenant, key_eq, invalidate_for_start, ◌>>=◌,
}
use booking_zoom_connect.Busy.{count_of, overlaps_busy, parse_business_hours}
use booking_zoom_connect.Hold.{HoldParams, hold_tx, candidates}
use booking_zoom_connect.Availability.Clock.{parse_hm}
use booking_zoom_connect.Availability.Context.{
  Calendar, Context, built, endless, build_context, build_target, build_day, build_slots, slot_loop,
  run_loop, is_open_slot, overlaps_break,
}
use booking_zoom_connect.Availability.Context.Day.{
  IsOpenDay, build_context-IsOpenDay, build_context_ends,
}
use booking_zoom_connect.Availability.Query.{
  get_availability, get_availability_public, cache_key, cache_get, cache_set, answer_built,
  answer_fresh, answer_targets, answer_cached, some_free, is_free, graph_busy_of, db_busy_of,
}
use booking_zoom_connect.Availability.Query.Free.{IsCached, IsOffered, get_availability_offers}
use booking_zoom_connect.Availability.Query.Held.{offered_slot_is_held}
use booking_zoom_connect.Hold.Given.{IsHeldOrRefused}
use booking_zoom_connect.Availability.Query.Cache.{invalidate_for_start_clears}
use booking_zoom_connect.Availability.Query.Again.{IsReached, get_availability_again}
use booking_zoom_connect.Availability.Query.Gate.{is_hidden, get_availability_public_answers}
use booking_zoom_connect.Tests.Data.{day_ms, acme, sato, db_of, env, params, hours}

abbrev utc : Calendar
utc = record {
  parse_date = λ tz s. if str_eq s "2" then some (2 * day_ms) else none;
  start_of_day = λ tz t. t / day_ms * day_ms;
  plus_days = λ tz t n. t + n * day_ms;
  weekday_key = λ tz t. "mon";
  at_minute = λ tz t m. t + m * 60_000;
  minute_of = λ tz t. t % day_ms / 60_000;
}

abbrev short_day : DayConfig
short_day = record {
  closed = false;
  open_at = some (codes "9:00");
  close_at = some (codes "10:30");
  breaks = (some (codes "9:30"), some (codes "9:45")) ∷ [];
}

abbrev short_hours : BusinessHours
short_hours = record hours { weekly = λ _. day short_day }

abbrev shop : Tenant
shop = record acme { public_business_hours = short_hours }

abbrev shop_db : Db
shop_db = record (db_of []) { tenants = shop ∷ [] }

abbrev shop_world : World
shop_world = record { db = shop_db; availability_cache = []; calls = [] }

abbrev slot_at : ℕ → Slot
slot_at m = record {
  start_at_utc = 2 * day_ms + m * 60_000;
  end_at_utc = 2 * day_ms + m * 60_000 + 1_800_000;
}

-- From nine, and from ten, after the break.
abbrev two_slots : List Slot
two_slots = slot_at 540 ∷ slot_at 600 ∷ []

abbrev day_context : Context
day_context = record {
  buffer_minutes = 10;
  day_open = 2 * day_ms + 540 * 60_000;
  day_end = 2 * day_ms + 630 * 60_000;
  slots = two_slots;
}

context_built : build_context utc 100 short_hours "2" "Asia/Tokyo" ≡ ok (built day_context)
unfolding build_context build_target parse_business_hours build_day parse_hm build_slots slot_loop
    run_loop is_open_slot overlaps_break
context_built = refl

build_context-IsOpenDay_example :
    (t : ℕ) × (d : DayConfig) × (utc.parse_date "Asia/Tokyo" "2" ≡ some t)
    × IsOpenDay utc 100
        (parse_business_hours short_hours)
        "2"
        "Asia/Tokyo"
        (utc.start_of_day "Asia/Tokyo" (utc.start_of_day "Asia/Tokyo" t))
        d
        day_context
build_context-IsOpenDay_example =
    build_context-IsOpenDay utc 100 short_hours "2" "Asia/Tokyo" day_context context_built

build_context_ends_example : build_context utc 100 short_hours "2" "Asia/Tokyo" ≢ ok endless
unfolding parse_business_hours
build_context_ends_example = build_context_ends utc 100 short_hours "2" "Asia/Tokyo" (ground arith)

two_offers : (get_availability env utc 100 "acme" (some 1) "2" shop_world).0 ≡ ok (some two_slots)
unfolding get_availability ◌>>=◌ find_first candidates find_many answer_targets answer_built
    answer_cached cache_get cache_set answer_fresh some_free is_free overlaps_busy graph_busy_of
    db_busy_of build_context build_target parse_business_hours build_day parse_hm build_slots
    slot_loop run_loop is_open_slot overlaps_break
two_offers = refl

get_availability_offers_example :
    (tenant : Tenant) × (find_tenant "acme" shop_world.db ≡ some tenant)
    × (IsCached 100 (cache_key tenant.id (some 1) "2") shop_world (slot_at 540)
        ⊎ IsOffered env utc 100 tenant
            (some 1)
            "2"
            (candidates env tenant.id (some 1) shop_world.db)
            shop_world.db
            (slot_at 540))
get_availability_offers_example =
    get_availability_offers env utc 100 "acme" (some 1) "2" shop_world two_slots (slot_at 540)
      two_offers (inl refl)

abbrev for_slot : HoldParams
for_slot = record params {
  start_at = 2 * day_ms + 540 * 60_000;
  end_at = 2 * day_ms + 570 * 60_000;
}

offered_slot_is_held_example :
    IsHeldOrRefused for_slot 1 shop_world.db (hold_tx env for_slot (some 1) [] shop_world).0
unfolding cache_get find_first parse_business_hours
offered_slot_is_held_example =
    offered_slot_is_held env utc 100 "acme" "2" 1 shop shop_world shop_world two_slots (slot_at 540)
      for_slot [] (λ l s. (λ m. m, λ m. m)) refl refl (ground arith) two_offers (inl refl) refl refl
      refl refl refl (ground arith) refl refl

abbrev shop_key : CacheKey
shop_key = cache_key 1 (some 1) "2"

abbrev asked_world : World
asked_world = record shop_world {
  availability_cache = (shop_key, record { expires_at = 45_100; slots = two_slots }) ∷ [];
}

shop-IsReached : IsReached env utc 100 "acme" (some 1) "2" shop_world shop (sato ∷ []) day_context
unfolding find_first candidates find_many build_context build_target parse_business_hours build_day
    parse_hm build_slots slot_loop run_loop is_open_slot overlaps_break
shop-IsReached = record {
  dated = refl;
  known = refl;
  found = refl;
  staffed = refl;
  open_day = refl;
}

asked-IsReached :
    IsReached env utc 20_000 "acme" (some 1) "2" asked_world shop (sato ∷ []) day_context
unfolding find_first candidates find_many build_context build_target parse_business_hours build_day
    parse_hm build_slots slot_loop run_loop is_open_slot overlaps_break
asked-IsReached = record {
  dated = refl;
  known = refl;
  found = refl;
  staffed = refl;
  open_day = refl;
}

kept_entry :
    cache_get shop_key asked_world.availability_cache
    ≡ cache_get shop_key
        (get_availability env utc 100 "acme" (some 1) "2" shop_world).1.availability_cache
unfolding get_availability ◌>>=◌ find_first candidates find_many answer_targets answer_built
    answer_cached cache_get cache_set answer_fresh some_free is_free overlaps_busy graph_busy_of
    db_busy_of build_context build_target parse_business_hours build_day parse_hm build_slots
    slot_loop run_loop is_open_slot overlaps_break
kept_entry = refl

get_availability_again_example :
    (20_000 < 100 + 45_000)
      × (get_availability env utc 20_000 "acme" (some 1) "2" asked_world
          ≡ (ok (some two_slots), asked_world))
    ⊎ (100 + 45_000 ≤ 20_000)
      × (get_availability env utc 20_000 "acme" (some 1) "2" asked_world
          ≡ answer_fresh env 20_000 shop shop_key (sato ∷ []) day_context asked_world)
unfolding cache_get
get_availability_again_example =
    get_availability_again env env utc utc 100 20_000 "acme" (some 1) "2" shop_world asked_world
      shop shop (sato ∷ []) (sato ∷ []) day_context day_context two_slots shop-IsReached
      asked-IsReached refl refl two_offers kept_entry

abbrev full_cache : World
full_cache = record shop_world {
  availability_cache = (cache_key 1 none "2026-01-01", record { expires_at = 9; slots = [] }) ∷ [];
}

abbrev all_key : CacheKey
all_key = cache_key 1 none "2026-01-01"

invalidate_for_start_clears_example :
    ((key_eq all_key (cache_key 1 (some 1) (env.local_ymd "Asia/Tokyo" 7)) ≡ true)
        ⊎ (key_eq all_key (cache_key 1 none (env.local_ymd "Asia/Tokyo" 7)) ≡ true))
      × (cache_get all_key
            (invalidate_for_start env 1 1 "Asia/Tokyo" 7 full_cache).1.availability_cache
          ≡ none)
    ⊎ (key_eq all_key (cache_key 1 (some 1) (env.local_ymd "Asia/Tokyo" 7)) ≡ false)
      × (key_eq all_key (cache_key 1 none (env.local_ymd "Asia/Tokyo" 7)) ≡ false)
      × (cache_get all_key
            (invalidate_for_start env 1 1 "Asia/Tokyo" 7 full_cache).1.availability_cache
          ≡ cache_get all_key full_cache.availability_cache)
invalidate_for_start_clears_example =
    invalidate_for_start_clears env 1 1 "Asia/Tokyo" 7 all_key full_cache

-- An invalid date is an empty answer.
get_availability_public_answers_example :
    (is_hidden (find_tenant "acme" shop_world.db) ≡ true)
      × (get_availability_public env utc 100 "acme" none "3" shop_world
          ≡ (err (not_found "Tenant not found"), shop_world))
    ⊎ ((t : Tenant) × (find_tenant "acme" shop_world.db ≡ some t)
        × (t.public_booking_enabled ≡ true)
        × ((get_availability_public env utc 100 "acme" none "3" shop_world).1.db ≡ shop_world.db)
        × (((l : List Slot) × ((get_availability_public env utc 100 "acme" none "3" shop_world).0
                ≡ ok (some l)))
            ⊎ (((r : Option (List Slot)) × ((get_availability_public env utc 100 "acme" none "3"
                      shop_world).0
                    ≡ ok r))
                × (count_of (parse_business_hours t.public_business_hours).slot_minutes ≡ 0))))
get_availability_public_answers_example =
    get_availability_public_answers env utc 100 "acme" none "3" shop_world
