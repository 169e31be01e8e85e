-- ===== src/Busy.antt =====
-- `parseBusinessHours` and `slotOverlapsBusy` of apps/api/src/services/booking.service.ts. Minutes
-- become milliseconds where they meet instants.
use booking_zoom_connect.Prelude.{
  ℕ, Bool, false, ◌&&◌, ◌||◌, Option, none, some, List, [], ◌∷◌, ◌+◌, ◌*◌, ltb, String, str_eq,
  if◌then◌else◌,
}
use booking_zoom_connect.Store.{
  BusinessHours, DayConfig, DayEntry, missing, null_day, day, Minutes, whole, negative,
}
use booking_zoom_connect.Service.{Slot}

abbrev pub value_of {ℓ} : {A : Type ℓ} → Option A → A → A
value_of none d = d
value_of (some a) d = a

-- What `parseBusinessHours` returns.
pub record Hours : Type 0 where
  pub slot_minutes : Minutes
  pub lead_time_minutes : ℕ
  pub buffer_minutes : ℕ
  pub max_days_ahead : ℕ
  pub closed_dates : List String
  pub weekly : String → Option DayConfig

-- "09:00" and "18:00".
abbrev pub nine : List ℕ
nine = b'0' ∷ b'9' ∷ b':' ∷ b'0' ∷ b'0' ∷ []

abbrev pub eighteen : List ℕ
eighteen = b'1' ∷ b'8' ∷ b':' ∷ b'0' ∷ b'0' ∷ []

abbrev pub is_weekday : String → Bool
is_weekday key =
    str_eq key "mon" || str_eq key "tue" || str_eq key "wed" || str_eq key "thu" || str_eq key "fri"

-- `defaultWeekly`
abbrev pub default_day : String → Option DayConfig
default_day key =
    if is_weekday key
    then some
        (record { closed = false; open_at = some nine; close_at = some eighteen; breaks = [] })
    else none

-- One key of `{ ...defaultWeekly, ...cfg.weekly }`.
abbrev pub merged_day : DayEntry → Option DayConfig → Option DayConfig
merged_day missing default = default
merged_day null_day default = none
merged_day (day d) default = some d

unfoldable pub parse_business_hours : BusinessHours → Hours
parse_business_hours cfg = record {
  slot_minutes = value_of cfg.slot_minutes (whole 60);
  lead_time_minutes = value_of cfg.lead_time_minutes 0;
  buffer_minutes = value_of cfg.buffer_minutes 10;
  max_days_ahead = value_of cfg.max_days_ahead 7;
  closed_dates = cfg.closed_dates;
  weekly = λ key. merged_day (cfg.weekly key) (default_day key);
}

-- The minutes, where they are not negative.
abbrev pub count_of : Minutes → ℕ
count_of (whole n) = n
count_of (negative n) = 0

abbrev pub minutes : ℕ → ℕ
minutes m = m * 60_000

-- One busy slot, widened by the buffer on both sides; `end > bStart - buffer` has the difference
-- moved to the left.
abbrev pub overlaps_one : ℕ → ℕ → ℕ → Slot → Bool
overlaps_one buffer start end b =
    ltb start (b.end_at_utc + minutes buffer) && ltb b.start_at_utc (end + minutes buffer)

-- `slotOverlapsBusy`
unfoldable pub overlaps_busy : ℕ → Slot → List Slot → Bool
overlaps_busy buffer slot [] = false
overlaps_busy buffer slot (b ∷ busy) =
    overlaps_one buffer slot.start_at_utc slot.end_at_utc b || overlaps_busy buffer slot busy
