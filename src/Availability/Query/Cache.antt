-- ===== src/Availability/Query/Cache.antt =====
-- About the availability cache (`availabilityCache` of apps/api/src/services/booking.service.ts).
use booking_zoom_connect.Prelude.{
  ℕ, String, ◌≡◌, refl, ◌⊎◌, inl, inr, true, false, none, some, List, [], ◌∷◌, ◌+◌, ◌≤◌, ◌<◌, arith,
  Bool-cases, ltb, str_eq_refl, str_eq_iff, sym, ap, ◌∙◌, subst,
}
use booking_zoom_connect.Store.{Tenant, Salesperson}
use booking_zoom_connect.Service.{
  Env, World, Slot, CacheKey, CacheEntry, Scope, union, of_salesperson, ok, ◌>>=◌, key_eq, scope_eq,
  cache_delete, invalidate_for_start,
}
use booking_zoom_connect.Availability.Context.{Context, built}
use booking_zoom_connect.Availability.Query.{
  cache_get, cache_set, answer_fresh, answer_cached, answer_built, entry_of, cache_ttl, cache_key,
}

scope_eq_sound : (a b : Scope) → scope_eq a b ≡ true → a ≡ b
scope_eq_sound union union h = refl
scope_eq_sound union (of_salesperson b) h = ground arith
scope_eq_sound (of_salesperson a) union h = ground arith
scope_eq_sound (of_salesperson a) (of_salesperson b) h = ap of_salesperson (ground arith)

scope_eq_refl : (a : Scope) → scope_eq a a ≡ true
scope_eq_refl union = refl
scope_eq_refl (of_salesperson a) = ground arith

key_eq_sound : (a b : CacheKey) → key_eq a b ≡ true → a ≡ b
key_eq_sound a b h = ground (arith, scope_eq_sound a.scope b.scope, (str_eq_iff a.ymd b.ymd).0)

key_eq_refl : (a : CacheKey) → key_eq a a ≡ true
key_eq_refl a = ground (arith, scope_eq_refl a.scope, str_eq_refl a.ymd)

cache_get-cache_delete :
    (k : CacheKey) (c : List (CacheKey × CacheEntry)) → cache_get k (cache_delete k c) ≡ none
unfolding cache_get cache_delete
cache_get-cache_delete k [] = refl
cache_get-cache_delete k ((j, e) ∷ c) = ground (arith, cache_get-cache_delete k c)

-- Two keys that a third equals are equal.
key_eq_joins : (i j k : CacheKey) → key_eq i k ≡ true → key_eq i j ≡ true → key_eq j k ≡ true
key_eq_joins i j k a b =
    let jk : j ≡ k = sym (key_eq_sound i j b) ∙ key_eq_sound i k a in
    subst (λ (x : CacheKey). key_eq j x ≡ true) jk (key_eq_refl j)

cache_get-cache_delete_other :
    (j k : CacheKey) (c : List (CacheKey × CacheEntry))
    → key_eq j k ≡ false
    → cache_get j (cache_delete k c) ≡ cache_get j c
unfolding cache_get cache_delete
cache_get-cache_delete_other j k [] other = refl
cache_get-cache_delete_other j k ((i, e) ∷ c) other =
    ground (arith, cache_get-cache_delete_other j k c other, key_eq_joins i j k)

-- A deletion takes nothing in.
cache_delete-none :
    (j k : CacheKey) (c : List (CacheKey × CacheEntry))
    → cache_get j c ≡ none
    → cache_get j (cache_delete k c) ≡ none
unfolding cache_get cache_delete
cache_delete-none j k [] h = refl
cache_delete-none j k ((i, e) ∷ c) h = ground (arith, cache_delete-none j k c)

-- A set key is read back, and the others are as before.
cache_get-cache_set :
    (j k : CacheKey) (e : CacheEntry) (c : List (CacheKey × CacheEntry))
    → (cache_get k (cache_set k e c) ≡ some e)
      × (key_eq j k ≡ false → cache_get j (cache_set k e c) ≡ cache_get j c)
unfolding cache_get cache_set
cache_get-cache_set j k e c = (
  ground (arith, key_eq_refl k),
  λ other.
      ground (arith, cache_get-cache_delete_other j k c other, key_eq_joins k j k (key_eq_refl k)),
)

-- An answer that was not from the cache is given again, whatever has changed in the database, if the
-- entry is not deleted: before 45 seconds are over the same list comes back and nothing changes, and
-- from then on the database is read anew.
pub answer_built_again :
    (env env' : Env) (now later : ℕ) (tenant tenant' : Tenant) (key : CacheKey)
    (targets targets' : List Salesperson) (ctx ctx' : Context) (w w' : World) (l : List Slot)
    → (answer_fresh env now tenant key targets ctx w).0 ≡ ok (some l)
    → cache_get key w'.availability_cache
      ≡ cache_get key (answer_fresh env now tenant key targets ctx w).1.availability_cache
    → (later < now + cache_ttl)
        × (answer_built env' later tenant' key targets' (built ctx') w' ≡ (ok (some l), w'))
      ⊎ (now + cache_ttl ≤ later)
        × (answer_built env' later tenant' key targets' (built ctx') w'
            ≡ answer_fresh env' later tenant' key targets' ctx' w')
unfolding answer_built answer_cached answer_fresh ◌>>=◌
answer_built_again env env' now later tenant tenant' key targets targets' ctx ctx' w w' l answer
      same =
    let read = (cache_get-cache_set key key (entry_of now l) w.availability_cache).0 in
    elim (Bool-cases (ltb later (now + cache_ttl))) [
      | inl early ↦ inl (ground arith, ground arith)
      | inr late ↦ inr (ground arith, ground arith)
    ]

-- After the entries for a salesperson's booking are deleted, the cache has none for the salesperson and
-- none for all salespersons at the booking's date in the salesperson's zone, and each other key has
-- what it had.
pub invalidate_for_start_clears :
    (env : Env) (tenant salesperson : ℕ) (timezone : String) (start : ℕ) (k : CacheKey) (w : World)
    → ((key_eq k (cache_key tenant (some salesperson) (env.local_ymd timezone start)) ≡ true)
          ⊎ (key_eq k (cache_key tenant none (env.local_ymd timezone start)) ≡ true))
        × (cache_get k
              (invalidate_for_start env tenant salesperson timezone start w).1.availability_cache
            ≡ none)
      ⊎ (key_eq k (cache_key tenant (some salesperson) (env.local_ymd timezone start)) ≡ false)
        × (key_eq k (cache_key tenant none (env.local_ymd timezone start)) ≡ false)
        × (cache_get k
              (invalidate_for_start env tenant salesperson timezone start w).1.availability_cache
            ≡ cache_get k w.availability_cache)
unfolding invalidate_for_start ◌>>=◌
invalidate_for_start_clears env tenant salesperson timezone start k w =
    let one = cache_key tenant (some salesperson) (env.local_ymd timezone start) in
    let all = cache_key tenant none (env.local_ymd timezone start) in
    let c = cache_delete one w.availability_cache in
    elim (Bool-cases (key_eq k all)) [
      | inl second ↦ inl (
        inr second,
        subst (λ (x : CacheKey). cache_get x (cache_delete all c) ≡ none)
            (sym (key_eq_sound k all second)) (cache_get-cache_delete all c),
      )
      | inr other ↦ elim (Bool-cases (key_eq k one)) [
        | inl first ↦ inl (
          inl first,
          cache_delete-none k all c (
              subst (λ (x : CacheKey). cache_get x c ≡ none) (sym (key_eq_sound k one first))
                (cache_get-cache_delete one w.availability_cache)),
        )
        | inr third ↦ inr (
          third,
          other,
          cache_get-cache_delete_other k all c other
              ∙ cache_get-cache_delete_other k one w.availability_cache third,
        )
      ]
    ]
