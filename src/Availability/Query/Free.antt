-- ===== src/Availability/Query/Free.antt =====
-- About `getAvailability` (apps/api/src/services/booking.service.ts) and busy times.
use booking_zoom_connect.Prelude.{
  ℕ, String, ◌≡◌, refl, ◌⊎◌, inl, inr, true, false, Option, none, some, List, [], ◌∷◌, ◌+◌, ◌≤◌,
  ◌<◌, In, arith, find_many, find_many-In, find_many-test, In-find_many, Bool-cases, Option-cases,
  ap,
}
use booking_zoom_connect.Store.{Db, Tenant, Booking, Salesperson, conflicts_at}
use booking_zoom_connect.Service.{
  Env, World, Slot, CacheEntry, Result, ok, err, ◌>>=◌, lift, find_tenant, CacheKey, Action,
}
use booking_zoom_connect.Busy.{overlaps_busy, minutes}
use booking_zoom_connect.Hold.{candidates}
use booking_zoom_connect.Availability.Context.{
  Calendar, Context, Built, built, closed, endless, build_context,
}
use booking_zoom_connect.Availability.Context.Day.{build_context-IsOpenDay}
use booking_zoom_connect.Availability.Query.{
  zone_of, cache_key, cache_get, if_fresh, graph_busy_of, slot_of, slots_of, db_busy_of, is_free,
  some_free, answer_fresh, answer_cached, answer_built, answer_targets, get_availability,
}

-- The slot and the busy time are the buffer apart.
abbrev pub IsApart : ℕ → Slot → Slot → Type 0
IsApart buffer slot b =
    (b.end_at_utc + minutes buffer ≤ slot.start_at_utc)
    ⊎ (slot.end_at_utc + minutes buffer ≤ b.start_at_utc)

overlaps_busy-IsApart :
    (buffer : ℕ) (slot b : Slot) (l : List Slot)
    → overlaps_busy buffer slot l ≡ false
    → In b l
    → IsApart buffer slot b
unfolding overlaps_busy
overlaps_busy-IsApart buffer slot b [] h m = absurd m
overlaps_busy-IsApart buffer slot b (x ∷ l) h (inl e) = ground arith
overlaps_busy-IsApart buffer slot b (x ∷ l) h (inr m) =
    overlaps_busy-IsApart buffer slot b l (ground arith) m

slots_of-In : (b : Booking) (bs : List Booking) → In b bs → In (slot_of b) (slots_of bs)
slots_of-In b [] m = m
slots_of-In b (x ∷ bs) (inl e) = inl (ap slot_of e)
slots_of-In b (x ∷ bs) (inr m) = inr (slots_of-In b bs m)

-- The salesperson is free for the slot: no live booking overlaps it, and the live bookings and the
-- busy times of the day keep the buffer.
pub record IsAvailable (env : Env) (now : ℕ) (tenant : Tenant) (ctx : Context) (db : Db)
    (slot : Slot) (s : Salesperson) : Type 0 where
  pub no_conflict :
      (b : Booking)
      → In b db.bookings
      → conflicts_at tenant.id s.id slot.start_at_utc slot.end_at_utc now b ≡ false
  pub bookings_apart :
      (b : Booking)
      → In b db.bookings
      → conflicts_at tenant.id s.id ctx.day_open ctx.day_end now b ≡ true
      → IsApart ctx.buffer_minutes slot (slot_of b)
  pub busy_apart :
      (g : Slot) → In g (graph_busy_of env tenant ctx s) → IsApart ctx.buffer_minutes slot g

module _ (env : Env) (now : ℕ) (tenant : Tenant) (ctx : Context) (db : Db) (slot : Slot) where
  booking-IsApart :
      (s : Salesperson) (b : Booking)
      → is_free env now tenant ctx db slot s ≡ true
      → In b db.bookings
      → conflicts_at tenant.id s.id ctx.day_open ctx.day_end now b ≡ true
      → IsApart ctx.buffer_minutes slot (slot_of b)
  unfolding is_free db_busy_of
  booking-IsApart s b free m c =
      overlaps_busy-IsApart ctx.buffer_minutes slot (slot_of b)
        (slots_of
          (find_many (conflicts_at tenant.id s.id ctx.day_open ctx.day_end now) db.bookings))
        (ground arith) (slots_of-In b _ (In-find_many _ db.bookings b m c))

  wider_conflict :
      (s : ℕ) (b : Booking)
      → ctx.day_open ≤ slot.start_at_utc
      → slot.end_at_utc ≤ ctx.day_end
      → conflicts_at tenant.id s slot.start_at_utc slot.end_at_utc now b ≡ true
      → (conflicts_at tenant.id s ctx.day_open ctx.day_end now b ≡ true)
        × (b.start_at_utc < slot.end_at_utc)
        × (slot.start_at_utc < b.end_at_utc)
  unfolding conflicts_at
  wider_conflict s b o e c = ground arith

  free-IsAvailable :
      (s : Salesperson)
      → ctx.day_open ≤ slot.start_at_utc
      → slot.end_at_utc ≤ ctx.day_end
      → is_free env now tenant ctx db slot s ≡ true
      → IsAvailable env now tenant ctx db slot s
  unfolding is_free
  free-IsAvailable s o e free = record {
    no_conflict = λ b m.
        elim (Bool-cases (conflicts_at tenant.id s.id slot.start_at_utc slot.end_at_utc now b)) [
          | inr no' ↦ no'
          | inl yes' ↦
              (let (c, before, after) = wider_conflict s.id b o e yes' in
                elim (booking-IsApart s b free m c) [
                  | inl x ↦ absurd (omega arith)
                  | inr x ↦ absurd (omega arith)
                ])
        ];
    bookings_apart = λ b m c. booking-IsApart s b free m c;
    busy_apart = λ g m. overlaps_busy-IsApart ctx.buffer_minutes slot g _ (ground arith) m;
  }

  some_free-In :
      (l : List Salesperson)
      → some_free env now tenant ctx db l slot ≡ true
      → (s : Salesperson) × In s l × (is_free env now tenant ctx db slot s ≡ true)
  unfolding some_free
  some_free-In [] h = ground arith
  some_free-In (s ∷ l) h = elim (Bool-cases (is_free env now tenant ctx db slot s)) [
    | inl free ↦ (s, inl refl, free)
    | inr busy ↦ (let (x, m, free) = some_free-In l (ground arith) in (x, inr m, free))
  ]

-- The slot is in an entry of the cache that has not run out.
abbrev pub IsCached : ℕ → CacheKey → World → Slot → Type 0
IsCached now key w slot =
    (e : CacheEntry) × (cache_get key w.availability_cache ≡ some e)
    × (now < e.expires_at)
    × In slot e.slots

-- The slot is one of the day's, and some salesperson that was asked for is free for it.
abbrev pub IsOffered :
    Env → Calendar → ℕ → Tenant → Option ℕ → String → List Salesperson → Db → Slot → Type 0
IsOffered env cal now tenant chosen date targets db slot =
    (ctx : Context) × (s : Salesperson) × (build_context cal now tenant.public_business_hours date
        (zone_of chosen targets tenant)
      ≡ ok (built ctx))
    × In slot ctx.slots
    × In s targets
    × IsAvailable env now tenant ctx db slot s

module _ (env : Env) (cal : Calendar) (now : ℕ) (tenant : Tenant) where
  slot_within :
      (date tz : String) (ctx : Context) (slot : Slot)
      → build_context cal now tenant.public_business_hours date tz ≡ ok (built ctx)
      → In slot ctx.slots
      → (ctx.day_open ≤ slot.start_at_utc) × (slot.end_at_utc ≤ ctx.day_end)
  slot_within date tz ctx slot e m =
      let (t, d, valid, day) =
        build_context-IsOpenDay cal now tenant.public_business_hours date tz ctx e in
      let (k, a, b, c, lead, misses) = (day.slots_exact slot).0 m in (omega (arith, a), c)

  answer_fresh_offers :
      (key : CacheKey) (targets : List Salesperson) (ctx : Context) (w : World) (l : List Slot)
      (slot : Slot)
      → (answer_fresh env now tenant key targets ctx w).0 ≡ ok (some l)
      → In slot l
      → In slot ctx.slots × (some_free env now tenant ctx w.db targets slot ≡ true)
  unfolding answer_fresh ◌>>=◌
  answer_fresh_offers key targets ctx w l slot e m =
      let m' : In slot (find_many (some_free env now tenant ctx w.db targets) ctx.slots) =
        ground arith in
      (find_many-In _ ctx.slots slot m', find_many-test _ ctx.slots slot m')

  if_fresh-some :
      (o : Option CacheEntry) (e : CacheEntry)
      → if_fresh now o ≡ some e
      → (o ≡ some e) × (now < e.expires_at)
  if_fresh-some none e h = ground arith
  if_fresh-some (some x) e h = ground arith

  Built-cases :
      (r : Result Built)
      → ((ctx : Context) × (r ≡ ok (built ctx)))
        ⊎ ((w : World) (f : Built → Action (Option (List Slot)))
            → ((x : Built)
                → (x ≡ closed) ⊎ (x ≡ endless)
                → (l : List Slot) (s : Slot) → (f x w).0 ≡ ok (some l)
                → ¬ In s l)
            → (l : List Slot) (s : Slot) → ((lift r >>= f) w).0 ≡ ok (some l)
            → ¬ In s l)
  unfolding ◌>>=◌
  Built-cases (err e) = inr (λ w f none' l s h m. ground arith)
  Built-cases (ok closed) = inr (λ w f none' l s h m. none' closed (inl refl) l s h m)
  Built-cases (ok endless) = inr (λ w f none' l s h m. none' endless (inr refl) l s h m)
  Built-cases (ok (built ctx)) = inl (ctx, refl)

  answer_built_offers :
      (key : CacheKey) (targets : List Salesperson) (ctx : Context) (w : World) (l : List Slot)
      (slot : Slot)
      → (answer_built env now tenant key targets (built ctx) w).0 ≡ ok (some l)
      → In slot l
      → IsCached now key w slot
        ⊎ (In slot ctx.slots × (some_free env now tenant ctx w.db targets slot ≡ true))
  unfolding answer_built answer_cached ◌>>=◌
  answer_built_offers key targets ctx w l slot h m =
      elim (Option-cases (if_fresh now (cache_get key w.availability_cache))) [
        | inl miss ↦ inr (answer_fresh_offers key targets ctx w l slot (ground arith) m)
        | inr (e, hit) ↦
            (let (found, alive) = if_fresh-some (cache_get key w.availability_cache) e hit in
              inl (e, found, alive, ground arith))
      ]

  no_day_no_slots :
      (key : CacheKey) (targets : List Salesperson) (w : World) (x : Built)
      → (x ≡ closed) ⊎ (x ≡ endless)
      → (l : List Slot) (s : Slot) → (answer_built env now tenant key targets x w).0 ≡ ok (some l)
      → ¬ In s l
  unfolding answer_built ◌>>=◌
  no_day_no_slots key targets w closed c l s h m = ground arith
  no_day_no_slots key targets w endless c l s h m = ground arith
  no_day_no_slots key targets w (built ctx) c l s h m = ground arith

  answer_targets_offers :
      (chosen : Option ℕ) (date : String) (targets : List Salesperson) (w : World) (l : List Slot)
      (slot : Slot)
      → (answer_targets env cal now tenant chosen date targets w).0 ≡ ok (some l)
      → In slot l
      → IsCached now (cache_key tenant.id chosen date) w slot
        ⊎ IsOffered env cal now tenant chosen date targets w.db slot
  unfolding answer_targets ◌>>=◌
  answer_targets_offers chosen date targets w l slot h m =
      let key = cache_key tenant.id chosen date in
      let tz = zone_of chosen targets tenant in
      elim (Built-cases (build_context cal now tenant.public_business_hours date tz)) [
        | inr less ↦ absurd (
            less w (answer_built env now tenant key targets) (no_day_no_slots key targets w) l slot
              h m)
        | inl (ctx, e) ↦ elim (answer_built_offers key targets ctx w l slot (ground arith) m) [
          | inl cached ↦ inl cached
          | inr (here, some') ↦
              (let (s, ms, free) = some_free-In env now tenant ctx w.db slot targets some' in
                let (opened, over) = slot_within date tz ctx slot e here in
                inr (
                  ctx,
                  s,
                  e,
                  here,
                  ms,
                  free-IsAvailable env now tenant ctx w.db slot s opened over free,
                ))
        ]
      ]

-- A slot that the query answers with is one of a cache entry for the tenant, the salesperson and the
-- date that has not run out, or one of the day's slots for which a salesperson that was asked for is
-- free: no live booking overlaps it, and the live bookings and busy times of the day keep the buffer.
pub get_availability_offers :
    (env : Env) (cal : Calendar) (now : ℕ) (slug : String) (chosen : Option ℕ) (date : String)
    (w : World) (l : List Slot) (slot : Slot)
    → (get_availability env cal now slug chosen date w).0 ≡ ok (some l)
    → In slot l
    → (tenant : Tenant) × (find_tenant slug w.db ≡ some tenant)
      × (IsCached now (cache_key tenant.id chosen date) w slot
          ⊎ IsOffered env cal now tenant chosen date
              (candidates env tenant.id chosen w.db)
              w.db
              slot)
unfolding get_availability ◌>>=◌
get_availability_offers env cal now slug chosen date w l slot h m =
    elim (Option-cases (find_tenant slug w.db)) [
      | inl unknown ↦ ground arith
      | inr (tenant, known) ↦ (
        tenant,
        known,
        answer_targets_offers env cal now tenant chosen date (candidates env tenant.id chosen w.db)
            w l slot (ground arith) m,
      )
    ]
