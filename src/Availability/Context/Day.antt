-- ===== src/Availability/Context/Day.antt =====
-- About `buildAvailabilityContext` (apps/api/src/services/booking.service.ts).
use booking_zoom_connect.Prelude.{
  ℕ, String, ◌≡◌, ◌≢◌, refl, ◌⊎◌, inl, inr, false, Option, none, some, List, [], ◌∷◌, ◌+◌, ◌*◌, ◌<◌,
  ◌≤◌, In, arith, Option-cases, ◌↔◌,
}
use booking_zoom_connect.Store.{BusinessHours, DayConfig}
use booking_zoom_connect.Service.{Slot, ok}
use booking_zoom_connect.Busy.{Hours, minutes, count_of, parse_business_hours, value_of}
use booking_zoom_connect.Availability.Clock.{parse_field}
use booking_zoom_connect.Availability.Context.{
  Calendar, Context, built, endless, overlaps_break, is_open_slot, run_loop, built_of, build_slots,
  build_day, build_target, build_context, break_ranges, has_date,
}
use booking_zoom_connect.Availability.Context.Slots.{
  run_loop_exact, run_loop_ends, ↔-trans, IsGridSlot,
}

-- No break has a minute in common with the minutes from `start` to `end`.
abbrev pub MissesBreaks : ℕ → ℕ → List (ℕ × ℕ) → Type 0
MissesBreaks start end bs = (b : ℕ × ℕ) → In b bs → (b.1 ≤ start) ⊎ (end ≤ b.0)

overlaps_break-MissesBreaks :
    (start end : ℕ) (bs : List (ℕ × ℕ))
    → (overlaps_break start end bs ≡ false) ↔ MissesBreaks start end bs
unfolding overlaps_break
overlaps_break-MissesBreaks start end [] = (λ h b m. absurd m, λ h. refl)
overlaps_break-MissesBreaks start end ((s, e) ∷ bs) = (
  λ h b m. elim m [
    | inl here ↦ ground arith
    | inr later ↦ (overlaps_break-MissesBreaks start end bs).0 (ground arith) b later
  ],
  λ h. ground (
    arith,
    h (s, e) (inl refl),
    (overlaps_break-MissesBreaks start end bs).1 (λ b m. h b (inr m)),
  ),
)

-- What a slot must be, without the loop: one of the slots that follow each other from the opening on,
-- over by closing time, in no break, and no earlier than the lead time allows.
abbrev pub IsOfferable : Calendar → ℕ → Hours → String → DayConfig → Context → Slot → Type 0
IsOfferable cal now h tz d ctx s =
    (k : ℕ) × (s.start_at_utc ≡ ctx.day_open + k * minutes (count_of h.slot_minutes))
    × (s.end_at_utc ≡ s.start_at_utc + minutes (count_of h.slot_minutes))
    × (s.end_at_utc ≤ ctx.day_end)
    × (now + minutes h.lead_time_minutes ≤ s.start_at_utc)
    × MissesBreaks (cal.minute_of tz s.start_at_utc) (cal.minute_of tz s.end_at_utc)
        (break_ranges d.breaks)

-- A day that may have slots: not past, not too far ahead, not a closed date, open on that weekday,
-- and the hours of the context are those of the day's entry.
pub record IsOpenDay (cal : Calendar) (now : ℕ) (h : Hours) (date tz : String) (target : ℕ)
    (d : DayConfig) (ctx : Context) : Type 0 where
  pub not_past : cal.start_of_day tz now ≤ target
  pub near : target ≤ cal.plus_days tz (cal.start_of_day tz now) h.max_days_ahead
  pub listed : has_date date h.closed_dates ≡ false
  pub entry : h.weekly (cal.weekday_key tz target) ≡ some d
  pub is_open : d.closed ≡ false
  pub opens : ctx.day_open ≡ cal.at_minute tz target (value_of (parse_field d.open_at) 540)
  pub closes : ctx.day_end ≡ cal.at_minute tz target (value_of (parse_field d.close_at) 1080)
  pub in_order : value_of (parse_field d.open_at) 540 < value_of (parse_field d.close_at) 1080
  pub buffer : ctx.buffer_minutes ≡ h.buffer_minutes
  pub slots_exact : (s : Slot) → In s ctx.slots ↔ IsOfferable cal now h tz d ctx s

built_of-built :
    (h : Hours) (a b : ℕ) (o : Option (List Slot)) (ctx : Context)
    → built_of h a b o ≡ built ctx
    → (o ≡ some ctx.slots)
      × (ctx.buffer_minutes ≡ h.buffer_minutes)
      × (ctx.day_open ≡ a)
      × (ctx.day_end ≡ b)
built_of-built h a b none ctx e = ground arith
built_of-built h a b (some l) ctx e = ground arith

module _ (cal : Calendar) (now : ℕ) (h : Hours) (tz : String) where
  grid-IsOfferable :
      (d : DayConfig) (ctx : Context) (s : Slot)
      → IsGridSlot
          (is_open_slot cal tz (break_ranges d.breaks) (now + minutes h.lead_time_minutes))
          (minutes (count_of h.slot_minutes))
          ctx.day_end
          ctx.day_open
          s
        ↔ IsOfferable cal now h tz d ctx s
  unfolding is_open_slot
  grid-IsOfferable d ctx s =
      let same =
        overlaps_break-MissesBreaks (cal.minute_of tz s.start_at_utc)
          (cal.minute_of tz s.end_at_utc) (break_ranges d.breaks) in
      (
        λ (k, a, b, c, e). (k, a, b, c, ground arith, same.0 (ground arith)),
        λ (k, a, b, c, l, m). (k, a, b, c, ground (arith, same.1 m)),
      )

  build_slots_exact :
      (a b : ℕ) (d : DayConfig) (ctx : Context)
      → build_slots cal now h tz a b (break_ranges d.breaks) ≡ built ctx
      → (ctx.buffer_minutes ≡ h.buffer_minutes)
        × (ctx.day_open ≡ a)
        × (ctx.day_end ≡ b)
        × ((s : Slot) → In s ctx.slots ↔ IsOfferable cal now h tz d ctx s)
  unfolding build_slots
  build_slots_exact a b d ctx e =
      let keep = is_open_slot cal tz (break_ranges d.breaks) (now + minutes h.lead_time_minutes) in
      let (run, buffer, opens, closes) = built_of-built h a b _ ctx e in
      let run' : run_loop keep h.slot_minutes ctx.day_open ctx.day_end ≡ some ctx.slots =
        ground arith in
      (
        buffer,
        opens,
        closes,
        λ s.
            ↔-trans (run_loop_exact keep h.slot_minutes ctx.day_open ctx.day_end ctx.slots s run')
              (grid-IsOfferable d ctx s),
      )

  build_target-IsOpenDay :
      (date : String) (target : ℕ) (ctx : Context)
      → build_target cal now h date tz target ≡ built ctx
      → (d : DayConfig) × IsOpenDay cal now h date tz target d ctx
  unfolding build_target build_day
  build_target-IsOpenDay date target ctx e =
      elim (Option-cases (h.weekly (cal.weekday_key tz target))) [
        | inl shut ↦ ground arith
        | inr (d, entry) ↦
            (let (buffer, opens, closes, exact) =
                build_slots_exact (cal.at_minute tz target (value_of (parse_field d.open_at) 540))
                  (cal.at_minute tz target (value_of (parse_field d.close_at) 1080)) d ctx
                  (ground arith) in
              (
                d,
                record {
                  not_past = ground arith;
                  near = ground arith;
                  listed = ground arith;
                  entry = entry;
                  is_open = ground arith;
                  opens = opens;
                  closes = closes;
                  in_order = ground arith;
                  buffer = buffer;
                  slots_exact = exact;
                },
              ))
      ]

  build_slots_ends :
      (a b : ℕ) (bs : List (ℕ × ℕ))
      → 0 < count_of h.slot_minutes
      → build_slots cal now h tz a b bs ≢ endless
  unfolding build_slots
  build_slots_ends a b bs pos e =
      let (l, run) =
        run_loop_ends (is_open_slot cal tz bs (now + minutes h.lead_time_minutes)) h.slot_minutes a
          b pos in
      ground arith

  build_target_ends :
      (date : String) (target : ℕ)
      → 0 < count_of h.slot_minutes
      → build_target cal now h date tz target ≢ endless
  unfolding build_target build_day
  build_target_ends date target pos e = elim (Option-cases (h.weekly (cal.weekday_key tz target))) [
    | inl shut ↦ ground arith
    | inr (d, entry) ↦ ground (
      arith,
      build_slots_ends (cal.at_minute tz target (value_of (parse_field d.open_at) 540))
          (cal.at_minute tz target (value_of (parse_field d.close_at) 1080)) (break_ranges d.breaks)
          pos,
    )
  ]

-- What a context means: when one is built for a date of a zone, the date is valid, its day is neither
-- past nor too far ahead nor a closed date, its weekday has an entry with the hours of the context, and
-- the slots are exactly those that follow each other from the opening on, end by closing time, miss
-- every break and start no earlier than the lead time allows.
pub build_context-IsOpenDay :
    (cal : Calendar) (now : ℕ) (cfg : BusinessHours) (date tz : String) (ctx : Context)
    → build_context cal now cfg date tz ≡ ok (built ctx)
    → (t : ℕ) × (d : DayConfig) × (cal.parse_date tz date ≡ some t)
      × IsOpenDay cal now
          (parse_business_hours cfg)
          date
          tz
          (cal.start_of_day tz (cal.start_of_day tz t))
          d
          ctx
unfolding build_context
build_context-IsOpenDay cal now cfg date tz ctx e = elim (Option-cases (cal.parse_date tz date)) [
  | inl bad ↦ ground arith
  | inr (t, good) ↦
      (let (d, day) =
          build_target-IsOpenDay cal now (parse_business_hours cfg) tz date
            (cal.start_of_day tz (cal.start_of_day tz t)) ctx (ground arith) in
        (t, d, good, day))
]

-- With a slot length of at least one minute, the loop over a day's slots ends, for every date and
-- calendar.
pub build_context_ends :
    (cal : Calendar) (now : ℕ) (cfg : BusinessHours) (date tz : String)
    → 0 < count_of (parse_business_hours cfg).slot_minutes
    → build_context cal now cfg date tz ≢ ok endless
unfolding build_context
build_context_ends cal now cfg date tz pos e = elim (Option-cases (cal.parse_date tz date)) [
  | inl bad ↦ ground arith
  | inr (t, good) ↦
      build_target_ends cal now (parse_business_hours cfg) tz date
        (cal.start_of_day tz (cal.start_of_day tz t)) pos (ground arith)
]
