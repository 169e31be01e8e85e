-- ===== src/Availability/Query/Again.antt =====
-- About two requests for the same slots (`getAvailability` of apps/api/src/services/booking.service.ts).
use booking_zoom_connect.Prelude.{
  ℕ, String, ◌≡◌, refl, ◌⊎◌, false, Option, none, some, List, ◌==◌, ◌+◌, ◌≤◌, ◌<◌, length, sym, ap,
  ◌∙◌, inl, inr,
}
use booking_zoom_connect.Store.{Tenant, Salesperson}
use booking_zoom_connect.Service.{Env, World, Slot, ok, ◌>>=◌, find_tenant, is_empty}
use booking_zoom_connect.Hold.{candidates}
use booking_zoom_connect.Availability.Context.{Calendar, Context, built, build_context}
use booking_zoom_connect.Availability.Query.{
  zone_of, cache_key, cache_get, cache_ttl, if_fresh, answer_fresh, answer_cached, answer_built,
  answer_targets, get_availability,
}
use booking_zoom_connect.Availability.Query.Cache.{answer_built_again}

-- The request gets as far as the cache: the tenant is known, has salespersons, and the day has slots.
pub record IsReached (env : Env) (cal : Calendar) (now : ℕ) (slug : String) (chosen : Option ℕ)
    (date : String) (w : World) (tenant : Tenant) (targets : List Salesperson) (ctx : Context)
    : Type 0 where
  pub dated : is_empty date ≡ false
  pub known : find_tenant slug w.db ≡ some tenant
  pub found : candidates env tenant.id chosen w.db ≡ targets
  pub staffed : (length targets == 0) ≡ false
  pub open_day :
      build_context cal now tenant.public_business_hours date (zone_of chosen targets tenant)
      ≡ ok (built ctx)

get_availability-IsReached :
    (env : Env) (cal : Calendar) (now : ℕ) (slug : String) (chosen : Option ℕ) (date : String)
    (w : World) (tenant : Tenant) (targets : List Salesperson) (ctx : Context)
    → IsReached env cal now slug chosen date w tenant targets ctx
    → get_availability env cal now slug chosen date w
      ≡ answer_built env now tenant (cache_key tenant.id chosen date) targets (built ctx) w
unfolding get_availability answer_targets ◌>>=◌
get_availability-IsReached env cal now slug none date w tenant targets ctx r =
    rw (r.dated, r.known, r.found, r.staffed, r.open_day) refl
get_availability-IsReached env cal now slug (some id) date w tenant targets ctx r =
    rw (r.dated, r.known, r.found, r.staffed, r.open_day) refl

answer_built-stale :
    (env : Env) (now : ℕ) (tenant : Tenant) (chosen : Option ℕ) (date : String)
    (targets : List Salesperson) (ctx : Context) (w : World)
    → if_fresh now (cache_get (cache_key tenant.id chosen date) w.availability_cache) ≡ none
    → answer_built env now tenant (cache_key tenant.id chosen date) targets (built ctx) w
      ≡ answer_fresh env now tenant (cache_key tenant.id chosen date) targets ctx w
unfolding answer_built answer_cached ◌>>=◌
answer_built-stale env now tenant chosen date targets ctx w old = rw old refl

-- A query that was not answered from the cache is asked again later, where both requests get as far as
-- the cache (the tenant, with the same id, is known and has salespersons, and the day is built) and the
-- entry was not deleted or replaced in between. Before 45 seconds are over the same list comes back and
-- nothing changes, whatever bookings there are by then; from then on it is answered from the database.
pub get_availability_again :
    (env env' : Env) (cal cal' : Calendar) (now later : ℕ) (slug : String) (chosen : Option ℕ)
    (date : String) (w w' : World) (tenant tenant' : Tenant) (targets targets' : List Salesperson)
    (ctx ctx' : Context) (l : List Slot)
    → IsReached env cal now slug chosen date w tenant targets ctx
    → IsReached env' cal' later slug chosen date w' tenant' targets' ctx'
    → tenant'.id ≡ tenant.id
    → if_fresh now (cache_get (cache_key tenant.id chosen date) w.availability_cache) ≡ none
    → (get_availability env cal now slug chosen date w).0 ≡ ok (some l)
    → cache_get (cache_key tenant.id chosen date) w'.availability_cache
      ≡ cache_get
          (cache_key tenant.id chosen date)
          (get_availability env cal now slug chosen date w).1.availability_cache
    → (later < now + cache_ttl)
        × (get_availability env' cal' later slug chosen date w' ≡ (ok (some l), w'))
      ⊎ (now + cache_ttl ≤ later)
        × (get_availability env' cal' later slug chosen date w'
            ≡ answer_fresh env' later tenant' (cache_key tenant.id chosen date) targets' ctx' w')
get_availability_again env env' cal cal' now later slug chosen date w w' tenant tenant' targets
      targets' ctx ctx' l r r' same old answer kept =
    let key = cache_key tenant.id chosen date in
    let first =
      get_availability-IsReached env cal now slug chosen date w tenant targets ctx r
      ∙ answer_built-stale env now tenant chosen date targets ctx w old in
    let second : get_availability env' cal' later slug chosen date w'
        ≡ answer_built env' later tenant' key targets' (built ctx') w' =
      get_availability-IsReached env' cal' later slug chosen date w' tenant' targets' ctx' r'
      ∙ ap
          (λ id.
            answer_built env' later tenant' (cache_key id chosen date) targets' (built ctx') w')
          same in
    elim (answer_built_again env env' now later tenant tenant' key targets targets' ctx ctx' w w' l
      (sym (ap (λ x. x.0) first) ∙ answer)
      (kept ∙ ap (λ x. cache_get key x.1.availability_cache) first)) [
        | inl (early, e) ↦ inl (early, second ∙ e)
        | inr (late, e) ↦ inr (late, second ∙ e)
      ]
