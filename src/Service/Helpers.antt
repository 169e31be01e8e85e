-- ===== src/Service/Helpers.antt =====
-- The private helpers of BookingService that several methods call, and utils/jwt.ts.
use booking_zoom_connect.Prelude.{
  ℕ, String, ⊤, Bool, true, false, ◌&&◌, Option, none, some, List, [], ◌∷◌, ◌==◌, str_eq,
  if◌then◌else◌, find_first,
}
use booking_zoom_connect.Store.{
  Db, Tenant, Booking, expired, Salesperson, Customer, IdempotencyKey, update_booking, shares_slot,
}
use booking_zoom_connect.Service.Monad.{
  Action, Result, ok, err, lift, unauthorized, pure, gets, or_raise, modify, modify_cache, raise_if,
  ◌>>=◌, ◌>>◌, CacheKey, CacheEntry, Scope, union, of_salesperson, not_found, unique_violation,
}
use booking_zoom_connect.Service.Environment.{
  TokenCheck, Env, TokenPayload, valid, token_expired, invalid,
}

abbrev pub is_some {ℓ} : {A : Type ℓ} → Option A → Bool
is_some none = false
is_some (some _) = true

abbrev pub is_empty : String → Bool
is_empty s = str_eq s ""

-- `prisma.tenant.findUnique({ where: { slug } })`
abbrev pub find_tenant : String → Db → Option Tenant
find_tenant slug db = find_first (λ t. str_eq t.slug slug) db.tenants

abbrev pub find_salesperson : ℕ → Db → Option Salesperson
find_salesperson id db = find_first (λ s. s.id == id) db.salespersons

unfoldable pub modify_booking : ℕ → (Booking → Booking) → Action ⊤
modify_booking id f = modify (λ db. record db { bookings = update_booking id f db.bookings })

-- The same, for the data of a booking `b` that may break the index `bookings_active_slot_unique` (line
-- 142 of apps/api/prisma/migrations/20250121160000_init/migration.sql): the database refuses it.
unfoldable pub modify_slot : Booking → (Booking → Booking) → Action ⊤
modify_slot b f = do
  rival ← gets (λ db. find_first (shares_slot (f b)) db.bookings)
  raise_if (is_some rival) unique_violation
  modify_booking b.id f

abbrev pub find_customer : ℕ → Db → Option Customer
find_customer id db = find_first (λ c. c.id == id) db.customers

-- A nullable text that JavaScript takes for false.
abbrev pub is_blank : Option String → Bool
is_blank none = true
is_blank (some s) = is_empty s

-- `s ?? ""`
abbrev pub text_of : Option String → String
text_of none = ""
text_of (some s) = s

-- `a || b`, of texts
abbrev pub or_text : String → String → String
or_text a b = if is_empty a then b else a

-- `hold.deleteMany({ where: { booking_id } })`
abbrev pub drop_hold : Booking → Booking
drop_hold b = record b { held = none }

abbrev pub expire : Booking → Booking
expire b = record b { status = expired }

-- `writePublicConfirmToken(tx, id, null)`
abbrev pub clear_public_token : Booking → Booking
clear_public_token b = record b { public_confirm_token = none }

abbrev pub is_idempotency_key : ℕ → String → String → IdempotencyKey → Bool
is_idempotency_key tenant scope key k =
    k.tenant_id == tenant && str_eq k.scope scope && str_eq k.key key

-- `checkIdempotency`
unfoldable pub check_idempotency : ℕ → String → String → Db → Bool
check_idempotency tenant scope key db =
    is_some (find_first (is_idempotency_key tenant scope key) db.idempotency_keys)

-- `recordIdempotency`: a duplicate (P2002 on the unique triple) is ignored.
unfoldable pub record_idempotency : ℕ → String → String → Db → Db
unfolding check_idempotency
record_idempotency tenant scope key db =
    if check_idempotency tenant scope key db then db else record db {
      idempotency_keys =
          record { tenant_id = tenant; scope = scope; key = key } ∷ db.idempotency_keys;
    }

abbrev pub token_result : TokenCheck → String → Result TokenPayload
token_result (valid p) expired_message = ok p
token_result token_expired expired_message = err (unauthorized expired_message)
token_result invalid expired_message = err (unauthorized "invalid token")

-- `verifyBookingTokenOrThrow`
unfoldable pub verify_token_or_raise : Env → ℕ → String → String → Action TokenPayload
verify_token_or_raise env now token expired_message =
    lift (token_result (env.check_token now token) expired_message)

abbrev pub scope_eq : Scope → Scope → Bool
scope_eq union union = true
scope_eq (of_salesperson a) (of_salesperson b) = a == b
scope_eq _ _ = false

abbrev pub key_eq : CacheKey → CacheKey → Bool
key_eq a b = a.tenant_id == b.tenant_id && scope_eq a.scope b.scope && str_eq a.ymd b.ymd

-- `availabilityCache.delete(key)`
unfoldable pub cache_delete : CacheKey → List (CacheKey × CacheEntry) → List (CacheKey × CacheEntry)
cache_delete k [] = []
cache_delete k ((j, e) ∷ c) = if key_eq j k then cache_delete k c else (j, e) ∷ cache_delete k c

-- `invalidateAvailabilityCacheForStart`: the salesperson's key and the union's, at the local date.
unfoldable pub invalidate_for_start : Env → ℕ → ℕ → String → ℕ → Action ⊤
unfolding cache_delete
invalidate_for_start env tenant salesperson timezone start = do
  let ymd = env.local_ymd timezone start
  modify_cache
      (cache_delete (record { tenant_id = tenant; scope = of_salesperson salesperson; ymd = ymd }))
  modify_cache (cache_delete (record { tenant_id = tenant; scope = union; ymd = ymd }))

-- The tenant gate of the public endpoints, `getPublicTenantOrThrow`.
unfoldable pub public_tenant_or_raise : String → Action Tenant
public_tenant_or_raise slug = do
  tenant ← or_raise (← gets (find_tenant slug)) (not_found "Tenant not found")
  raise_if (if tenant.public_booking_enabled then false else true) (not_found "Tenant not found")
  pure tenant
