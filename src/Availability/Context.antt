-- ===== src/Availability/Context.antt =====
-- `buildAvailabilityContext` of apps/api/src/services/booking.service.ts and `dateFromYmdLocal` of
-- utils/time.ts. The calendar of a time zone is luxon's and stands as a record of functions; adding
-- minutes to an instant is exact in luxon. The loop runs on fuel, and no fuel left is `none`.
pub mod Slots
pub mod Day
use booking_zoom_connect.Prelude.{
  ℕ, zero, suc, String, Bool, true, false, ◌&&◌, not, Option, none, some, List, [], ◌∷◌, ◌+◌, ◌*◌,
  ◌-◌, ◌/◌, ltb, leb, str_eq, if◌then◌else◌,
}
use booking_zoom_connect.Store.{BusinessHours, DayConfig, Minutes, whole, negative}
use booking_zoom_connect.Service.{Slot, Result, ok, err, plain_error}
use booking_zoom_connect.Busy.{Hours, parse_business_hours, minutes, value_of}
use booking_zoom_connect.Availability.Clock.{parse_field}

-- luxon: each function takes the name of a zone first.
pub record Calendar : Type 0 where
  -- `DateTime.fromISO(ymd, { zone })`; no value is an invalid date.
  pub parse_date : String → String → Option ℕ
  -- `startOf("day")`
  pub start_of_day : String → ℕ → ℕ
  -- `plus({ days })`
  pub plus_days : String → ℕ → ℕ → ℕ
  -- `toFormat("ccc").toLowerCase()`
  pub weekday_key : String → ℕ → String
  -- `set({ hour, minute, second: 0, millisecond: 0 })`, of the minute of the day
  pub at_minute : String → ℕ → ℕ → ℕ
  -- `hour * 60 + minute`
  pub minute_of : String → ℕ → ℕ

pub record Context : Type 0 where
  pub buffer_minutes : ℕ
  pub day_open : ℕ
  pub day_end : ℕ
  pub slots : List Slot

-- A context, the `null` for a day without slots, or a loop that does not end.
pub data Built : Type 0 where
  closed endless : Built
  built : Context → Built

-- `dateFromYmdLocal`
abbrev pub date_from_ymd : Calendar → String → String → Result ℕ
date_from_ymd cal ymd tz = elim (cal.parse_date tz ymd) [
  | none ↦ err (plain_error "Invalid date")
  | some t ↦ ok (cal.start_of_day tz t)
]

-- `closedDates.includes(date)`
abbrev pub has_date : String → List String → Bool
has_date date [] = false
has_date date (d ∷ ds) = if str_eq d date then true else has_date date ds

-- A break whose two ends are read and in order.
abbrev pub add_range : Option ℕ → Option ℕ → List (ℕ × ℕ) → List (ℕ × ℕ)
add_range (some s) (some e) rest = if ltb s e then (s, e) ∷ rest else rest
add_range _ _ rest = rest

-- `breakRanges`
abbrev pub break_ranges : List (Option (List ℕ) × Option (List ℕ)) → List (ℕ × ℕ)
break_ranges [] = []
break_ranges ((s, e) ∷ bs) = add_range (parse_field s) (parse_field e) (break_ranges bs)

-- `overlapsBreak`, in minutes of the day.
unfoldable pub overlaps_break : ℕ → ℕ → List (ℕ × ℕ) → Bool
overlaps_break start end [] = false
overlaps_break start end ((s, e) ∷ bs) =
    if ltb start e && ltb s end then true else overlaps_break start end bs

-- A slot of the loop that is pushed: in no break, and not before the lead time.
unfoldable pub is_open_slot : Calendar → String → List (ℕ × ℕ) → ℕ → ℕ → ℕ → Bool
is_open_slot cal tz breaks cutoff start end =
    not (overlaps_break (cal.minute_of tz start) (cal.minute_of tz end) breaks) && leb cutoff start

abbrev pub push_if : Bool → ℕ → ℕ → Option (List Slot) → Option (List Slot)
push_if c start end none = none
push_if c start end (some rest) =
    if c then some (record { start_at_utc = start; end_at_utc = end } ∷ rest) else some rest

-- The `while` loop, with its fuel first.
unfoldable pub slot_loop : ℕ → (ℕ → ℕ → Bool) → ℕ → ℕ → ℕ → Option (List Slot)
slot_loop zero keep step day_end cursor = none
slot_loop (suc fuel) keep step day_end cursor =
    let rest = slot_loop fuel keep step day_end (cursor + step) in
    if leb (cursor + step) day_end
    then push_if (keep cursor (cursor + step)) cursor (cursor + step) rest
    else some []

abbrev pub loop_fuel : ℕ → ℕ → ℕ → ℕ
loop_fuel step day_open day_end = suc ((day_end - day_open) / step)

abbrev pub built_of : Hours → ℕ → ℕ → Option (List Slot) → Built
built_of h day_open day_end none = endless
built_of h day_open day_end (some slots) = built (record {
  buffer_minutes = h.buffer_minutes;
  day_open = day_open;
  day_end = day_end;
  slots = slots;
})

-- The loop for a slot length. A negative one moves the cursor back, so the loop's test, once true, stays
-- true.
unfoldable pub run_loop : (ℕ → ℕ → Bool) → Minutes → ℕ → ℕ → Option (List Slot)
run_loop keep (whole n) day_open day_end =
    slot_loop (loop_fuel (minutes n) day_open day_end) keep (minutes n) day_end day_open
run_loop keep (negative n) day_open day_end =
    if leb day_open (day_end + minutes (suc n)) then none else some []

-- From `dayOpen` on.
unfoldable pub build_slots : Calendar → ℕ → Hours → String → ℕ → ℕ → List (ℕ × ℕ) → Built
build_slots cal now h tz day_open day_end breaks = built_of h day_open day_end (
    run_loop (is_open_slot cal tz breaks (now + minutes h.lead_time_minutes)) h.slot_minutes
      day_open day_end)

unfoldable pub build_day : Calendar → ℕ → Hours → String → ℕ → Option DayConfig → Built
build_day cal now h tz target none = closed
build_day cal now h tz target (some cfg) =
    let open_min = value_of (parse_field cfg.open_at) 540 in
    let close_min = value_of (parse_field cfg.close_at) 1080 in
    if cfg.closed
    then closed
    else if leb close_min open_min
    then closed
    else build_slots cal now h tz (cal.at_minute tz target open_min)
        (cal.at_minute tz target close_min) (break_ranges cfg.breaks)

unfoldable pub build_target : Calendar → ℕ → Hours → String → String → ℕ → Built
build_target cal now h date tz target =
    let today = cal.start_of_day tz now in
    if ltb target today
    then closed
    else if ltb (cal.plus_days tz today h.max_days_ahead) target
    then closed
    else if has_date date h.closed_dates
    then closed
    else build_day cal now h tz target (h.weekly (cal.weekday_key tz target))

-- `buildAvailabilityContext`, at an instant
unfoldable pub build_context : Calendar → ℕ → BusinessHours → String → String → Result Built
build_context cal now cfg date tz = elim (date_from_ymd cal date tz) [
  | err e ↦ err e
  | ok day_start ↦
      ok (build_target cal now (parse_business_hours cfg) date tz (cal.start_of_day tz day_start))
]
