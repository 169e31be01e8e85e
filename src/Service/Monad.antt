-- ===== src/Service/Monad.antt =====
-- A method call: state and exceptions. What was written before a throw stays written, except in a
-- transaction, which the database rolls back.
use booking_zoom_connect.Prelude.{ℕ, String, ⊤, Bool, Option, none, some, List, ◌∷◌, if◌then◌else◌}
use booking_zoom_connect.Store.{Db}

-- The NestJS exceptions that the services throw, and any other error.
pub data HttpError : Type 0 where
  bad_request unauthorized forbidden not_found conflict : String → HttpError
  plain_error : String → HttpError
  -- Prisma's P2002, of a unique index.
  unique_violation : HttpError

pub data Result (A : Type 0) : Type 0 where
  ok : A → Result A
  err : HttpError → Result A

-- The second part of a cache key: one salesperson, or BookingService.UNION_SCOPE.
pub data Scope : Type 0 where
  union : Scope
  of_salesperson : ℕ → Scope

pub record CacheKey : Type 0 where
  pub tenant_id : ℕ
  pub scope : Scope
  pub ymd : String

pub record Slot : Type 0 where
  pub start_at_utc : ℕ
  pub end_at_utc : ℕ

pub record CacheEntry : Type 0 where
  pub expires_at : ℕ
  pub slots : List Slot

-- A request that went out to Microsoft Graph, Zoom or the mail sender.
pub data Call : Type 0 where
  create_event delete_event update_event_times update_event_body send_mail delete_meeting : ℕ → Call

-- The database, the service's in-memory cache, and the requests sent so far, the latest first.
pub record World : Type 0 where
  pub db : Db
  pub availability_cache : List (CacheKey × CacheEntry)
  pub calls : List Call

abbrev pub Action : Type 0 → Type 0
Action A = World → Result A × World

-- `if (c) throw e`
abbrev pub test_or : Bool → HttpError → Result ⊤
test_or c e = if c then err e else ok tt

-- `if (!x) throw e`
abbrev pub value_or : {A : Type 0} → Option A → HttpError → Result A
value_or none e = err e
value_or (some a) _ = ok a

module _ {A : Type 0} where
  pub pure : A → Action A
  pure a w = (ok a, w)

  pub raise : HttpError → Action A
  raise e w = (err e, w)

  pub lift : Result A → Action A
  lift r w = (r, w)

  pub gets : (Db → A) → Action A
  gets f w = (ok (f w.db), w)

  pub gets_cache : (List (CacheKey × CacheEntry) → A) → Action A
  gets_cache f w = (ok (f w.availability_cache), w)

pub raise_if : Bool → HttpError → Action ⊤
unfolding lift
raise_if c e = lift (test_or c e)

pub or_raise : {A : Type 0} → Option A → HttpError → Action A
unfolding lift
or_raise o e = lift (value_or o e)

pub modify : (Db → Db) → Action ⊤
modify f w = (ok tt, record w { db = f w.db })

pub modify_cache : (List (CacheKey × CacheEntry) → List (CacheKey × CacheEntry)) → Action ⊤
modify_cache f w = (ok tt, record w { availability_cache = f w.availability_cache })

pub log_call : Call → Action ⊤
log_call c w = (ok tt, record w { calls = c ∷ w.calls })

abbrev continue : {A B : Type 0} → Result A → (A → Action B) → Action B
continue (ok a) f w = f a w
continue (err e) f w = (err e, w)

abbrev pub settle : {A : Type 0} → Db → Result A → World → Result A × World
settle db (ok a) w = (ok a, w)
settle db (err e) w = (err e, record w { db = db })

-- `try { … } catch (err) { … }`: what `m` throws becomes a value.
unfoldable pub attempt : {A : Type 0} → Action A → Action (Result A)
attempt m w = let (r, w') = m w in (ok r, w')

infixl 5 ◌>>=◌ ◌>>◌
-- Opening this opens the actions above too.
unfoldable pub ◌>>=◌ : {A B : Type 0} → Action A → (A → Action B) → Action B
unfolding pure raise lift gets gets_cache raise_if or_raise modify modify_cache log_call
◌>>=◌ m f w = let (r, w') = m w in continue r f w'

abbrev pub ◌>>◌ : {A B : Type 0} → Action A → Action B → Action B
m >> k = m >>= λ _. k

-- `prisma.$transaction(async (tx) => …)`: a throw undoes what the body wrote to the database.
unfoldable pub transaction : {A : Type 0} → Action A → Action A
transaction m w = let (r, w') = m w in settle w.db r w'
