-- ===== src/Availability/Query/Gate.antt =====
-- About `getAvailabilityPublic` (apps/api/src/services/booking.service.ts) and its errors.
use booking_zoom_connect.Prelude.{
  ℕ, zero, suc, String, ◌≡◌, ◌≢◌, find_many, length, ◌==◌, ◌&&◌, ap, ◌<◌, [], refl, ◌⊎◌, inl, inr,
  Bool, true, false, Option, none, some, List, arith, Option-cases, Bool-cases, if◌then◌else◌,
}
use booking_zoom_connect.Store.{Db, Tenant, Salesperson}
use booking_zoom_connect.Service.{
  Env, World, Slot, CacheKey, CacheEntry, Result, HttpError, Action, raise_if, is_empty, is_some,
  lift, ok, err, not_found, ◌>>=◌, find_tenant, public_tenant_or_raise,
}
use booking_zoom_connect.Service.Keeps.{Keeps, keeps_rules}
use booking_zoom_connect.Busy.{parse_business_hours, count_of}
use booking_zoom_connect.Hold.{candidates}
use booking_zoom_connect.Availability.Context.Day.{build_context_ends}
use booking_zoom_connect.Availability.Context.{Calendar, Context, Built, built, closed, endless}
use booking_zoom_connect.Availability.Query.{
  answer_fresh, answer_cached, answer_built, answer_targets, get_availability, or_empty,
  slots_or_empty, get_availability_public, zone_of, cache_key, cache_get, if_fresh, some_free,
}

abbrev Is : Db → Db → Type 0
Is d db = db ≡ d

module _ (env : Env) (cal : Calendar) (now : ℕ) (d : Db) where
  answer_cached-Keeps :
      (tenant : Tenant) (key : CacheKey) (targets : List Salesperson) (ctx : Context)
      (o : Option CacheEntry)
      → Keeps (Is d) (answer_cached env now tenant key targets ctx o)
  unfolding answer_cached answer_fresh
  answer_cached-Keeps tenant key targets ctx none = search keeps_rules depth 9
  answer_cached-Keeps tenant key targets ctx (some e) = search keeps_rules

  answer_built-Keeps :
      (tenant : Tenant) (key : CacheKey) (targets : List Salesperson) (b : Built)
      → Keeps (Is d) (answer_built env now tenant key targets b)
  unfolding answer_built
  answer_built-Keeps tenant key targets closed = search keeps_rules
  answer_built-Keeps tenant key targets endless = search keeps_rules
  answer_built-Keeps tenant key targets (built ctx) = search (answer_cached-Keeps, keeps_rules)

  answer_targets-Keeps :
      (tenant : Tenant) (chosen : Option ℕ) (date : String) (targets : List Salesperson)
      → Keeps (Is d) (answer_targets env cal now tenant chosen date targets)
  unfolding answer_targets
  answer_targets-Keeps tenant chosen date targets = search (answer_built-Keeps, keeps_rules)

  get_availability-Keeps :
      (slug : String) (chosen : Option ℕ) (date : String)
      → Keeps (Is d) (get_availability env cal now slug chosen date)
  unfolding get_availability
  get_availability-Keeps slug chosen date = search (answer_targets-Keeps, keeps_rules) depth 12

abbrev pub is_hidden : Option Tenant → Bool
is_hidden none = true
is_hidden (some t) = if t.public_booking_enabled then false else true

public_tenant_hidden :
    (slug : String) (w : World)
    → is_hidden (find_tenant slug w.db) ≡ true
    → public_tenant_or_raise slug w ≡ (err (not_found "Tenant not found"), w)
unfolding public_tenant_or_raise ◌>>=◌
public_tenant_hidden slug w h = elim (Option-cases (find_tenant slug w.db)) [
  | inl unknown ↦ ground arith
  | inr (t, known) ↦ ground arith
]

public_tenant_open :
    (slug : String) (w : World)
    → is_hidden (find_tenant slug w.db) ≡ false
    → (t : Tenant) × (find_tenant slug w.db ≡ some t)
      × (t.public_booking_enabled ≡ true)
      × (public_tenant_or_raise slug w ≡ (ok t, w))
unfolding public_tenant_or_raise ◌>>=◌
public_tenant_open slug w h = elim (Option-cases (find_tenant slug w.db)) [
  | inl unknown ↦ ground arith
  | inr (t, known) ↦ (t, known, ground arith, ground arith)
]

-- The loop over the slots has ended, or there was an error.
abbrev HasEnded : Result (Option (List Slot)) → Type 0
HasEnded r = ((e : HttpError) × (r ≡ err e)) ⊎ ((l : List Slot) × (r ≡ ok (some l)))

module _ (env : Env) (cal : Calendar) (now : ℕ) (w : World) where
  answer_built-HasEnded :
      (tenant : Tenant) (key : CacheKey) (targets : List Salesperson) (b : Built)
      → b ≢ endless
      → HasEnded (answer_built env now tenant key targets b w).0
  unfolding answer_built answer_cached answer_fresh ◌>>=◌
  answer_built-HasEnded tenant key targets closed ends = inr ([], refl)
  answer_built-HasEnded tenant key targets endless ends = absurd (ends refl)
  answer_built-HasEnded tenant key targets (built ctx) ends =
      elim (Option-cases (if_fresh now (cache_get key w.availability_cache))) [
        | inl old ↦
            inr (find_many (some_free env now tenant ctx w.db targets) ctx.slots, rw old refl)
        | inr (e, fresh) ↦ inr (e.slots, rw fresh refl)
      ]

  lift-HasEnded :
      (tenant : Tenant) (key : CacheKey) (targets : List Salesperson) (r : Result Built)
      → r ≢ ok endless
      → HasEnded ((lift r >>= answer_built env now tenant key targets) w).0
  unfolding ◌>>=◌
  lift-HasEnded tenant key targets (err e) ends = inl (e, refl)
  lift-HasEnded tenant key targets (ok b) ends =
      answer_built-HasEnded tenant key targets b (λ same. ends (ap ok same))

  answer_targets-HasEnded :
      (tenant : Tenant) (chosen : Option ℕ) (date : String) (targets : List Salesperson)
      → 0 < count_of (parse_business_hours tenant.public_business_hours).slot_minutes
      → HasEnded (answer_targets env cal now tenant chosen date targets w).0
  unfolding answer_targets ◌>>=◌
  answer_targets-HasEnded tenant chosen date targets pos =
      lift-HasEnded tenant (cache_key tenant.id chosen date) targets _ (
        build_context_ends cal now tenant.public_business_hours date (zone_of chosen targets tenant)
          pos)

  raise_if-HasEnded :
      (c : Bool) (e : HttpError) (m : Action (Option (List Slot)))
      → HasEnded (m w).0
      → HasEnded ((raise_if c e >>= λ _. m) w).0
  unfolding ◌>>=◌
  raise_if-HasEnded true e m h = inl (e, refl)
  raise_if-HasEnded false e m h = h

  if-HasEnded :
      (c : Bool) (m n : Action (Option (List Slot)))
      → HasEnded (m w).0
      → HasEnded (n w).0
      → HasEnded ((if c then m else n) w).0
  if-HasEnded true m n hm hn = hm
  if-HasEnded false m n hm hn = hn

  get_availability-HasEnded :
      (slug : String) (tenant : Tenant) (chosen : Option ℕ) (date : String)
      → find_tenant slug w.db ≡ some tenant
      → 0 < count_of (parse_business_hours tenant.public_business_hours).slot_minutes
      → HasEnded (get_availability env cal now slug chosen date w).0
  unfolding get_availability ◌>>=◌
  get_availability-HasEnded slug tenant chosen date known pos =
      let targets = candidates env tenant.id chosen w.db in
      raise_if-HasEnded (is_empty date) _ _ (
        rw known (
          raise_if-HasEnded (is_some chosen && length targets == 0) _ _ (
            if-HasEnded (length targets == 0) _ _ (inr ([], refl))
              (answer_targets-HasEnded tenant chosen date targets pos))))

zero_or_more : (n : ℕ) → (n ≡ 0) ⊎ (0 < n)
zero_or_more zero = inl refl
zero_or_more (suc n) = inr (omega arith)

ended_or_empty :
    (r : Result (Option (List Slot))) → HasEnded r → (l : List Slot) × (slots_or_empty r ≡ some l)
ended_or_empty r (inl (e, same)) = ([], ap slots_or_empty same)
ended_or_empty r (inr (l, same)) = (l, ap slots_or_empty same)

-- The public query throws nothing but "Tenant not found", and that exactly for a tenant that is
-- unknown or has public booking switched off; then nothing changes. Otherwise it throws nothing and
-- changes no table, and it answers with a list of slots, whatever goes wrong inside, unless the tenant's
-- slot length is less than a minute.
pub get_availability_public_answers :
    (env : Env) (cal : Calendar) (now : ℕ) (slug : String) (chosen : Option ℕ) (date : String)
    (w : World)
    → (is_hidden (find_tenant slug w.db) ≡ true)
        × (get_availability_public env cal now slug chosen date w
            ≡ (err (not_found "Tenant not found"), w))
      ⊎ ((t : Tenant) × (find_tenant slug w.db ≡ some t)
          × (t.public_booking_enabled ≡ true)
          × ((get_availability_public env cal now slug chosen date w).1.db ≡ w.db)
          × (((l : List Slot) × ((get_availability_public env cal now slug chosen date w).0
                  ≡ ok (some l)))
              ⊎ (((r : Option (List Slot)) × ((get_availability_public env cal now slug chosen date
                        w).0
                      ≡ ok r))
                  × (count_of (parse_business_hours t.public_business_hours).slot_minutes ≡ 0))))
unfolding get_availability_public or_empty ◌>>=◌
get_availability_public_answers env cal now slug chosen date w =
    elim (Bool-cases (is_hidden (find_tenant slug w.db))) [
      | inl hidden ↦ inl (hidden, ground (arith, public_tenant_hidden slug w hidden))
      | inr shown ↦
          (let (t, known, enabled, e) = public_tenant_open slug w shown in
            inr (
              t,
              known,
              enabled,
              ground (arith, (get_availability-Keeps env cal now w.db slug chosen date).at w refl),
              elim (zero_or_more
                  (count_of (parse_business_hours t.public_business_hours).slot_minutes)) [
                    | inl none_of ↦ inr (
                      (
                        slots_or_empty (get_availability env cal now slug chosen date w).0,
                        ground arith,
                      ),
                      none_of,
                    )
                    | inr pos ↦
                        (let (l, same) = ended_or_empty _ (
                            get_availability-HasEnded env cal now w slug t chosen date known pos) in
                          inl (l, ground arith))
                  ],
            ))
    ]
