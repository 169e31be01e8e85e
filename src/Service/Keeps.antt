-- ===== src/Service/Keeps.antt =====
-- Invariants of the database under a method: one rule for each way to build an action.
use booking_zoom_connect.Prelude.{
  ℕ, String, ◌≡◌, refl, Bool, true, false, Option, List, if◌then◌else◌,
}
use booking_zoom_connect.Store.{Db}
use booking_zoom_connect.Service.{
  settle, transaction, attempt, Env, verify_token_or_raise, invalidate_for_start,
  public_tenant_or_raise, Action, World, Result, ok, err, HttpError, pure, raise, lift, gets,
  gets_cache, raise_if, or_raise, modify, modify_cache, log_call, ◌>>=◌, Call, CacheKey, CacheEntry,
}

-- The method keeps `I` of the database, whether it returns or throws.
pub record Keeps {A : Type 0} (I : Db → Type 0) (m : Action A) : Type 0 where
  pub at : (w : World) → I w.db → I (m w).1.db

module _ {A : Type 0} {I : Db → Type 0} where
  pub Keeps-pure : (a : A) → Keeps I (pure a)
  unfolding ◌>>=◌
  Keeps-pure a = record { at = λ w h. h }

  pub Keeps-raise : (e : HttpError) → Keeps I (raise {A = A} e)
  unfolding ◌>>=◌
  Keeps-raise e = record { at = λ w h. h }

  pub Keeps-gets : (f : Db → A) → Keeps I (gets f)
  unfolding ◌>>=◌
  Keeps-gets f = record { at = λ w h. h }

  pub Keeps-gets_cache : (f : List (CacheKey × CacheEntry) → A) → Keeps I (gets_cache f)
  unfolding ◌>>=◌
  Keeps-gets_cache f = record { at = λ w h. h }

  pub Keeps-lift : (r : Result A) → Keeps I (lift r)
  unfolding ◌>>=◌
  Keeps-lift r = record { at = λ w h. h }

  pub Keeps-or_raise : (o : Option A) (e : HttpError) → Keeps I (or_raise o e)
  unfolding ◌>>=◌
  Keeps-or_raise o e = record { at = λ w h. h }

  pub Keeps-if :
      (b : Bool) (m n : Action A)
      → (b ≡ true → Keeps I m)
      → (b ≡ false → Keeps I n)
      → Keeps I (if b then m else n)
  Keeps-if true m n km kn = km refl
  Keeps-if false m n km kn = kn refl

module _ {I : Db → Type 0} where
  pub Keeps-raise_if : (c : Bool) (e : HttpError) → Keeps I (raise_if c e)
  unfolding ◌>>=◌
  Keeps-raise_if c e = record { at = λ w h. h }

  pub Keeps-modify_cache :
      (f : List (CacheKey × CacheEntry) → List (CacheKey × CacheEntry)) → Keeps I (modify_cache f)
  unfolding ◌>>=◌
  Keeps-modify_cache f = record { at = λ w h. h }

  pub Keeps-log_call : (c : Call) → Keeps I (log_call c)
  unfolding ◌>>=◌
  Keeps-log_call c = record { at = λ w h. h }

  pub Keeps-modify : (f : Db → Db) → ((db : Db) → I db → I (f db)) → Keeps I (modify f)
  unfolding ◌>>=◌
  Keeps-modify f k = record { at = λ w h. k w.db h }

  Keeps-continue :
      {A B : Type 0} (r : Result A) (f : A → Action B)
      → ((a : A) → Keeps I (f a))
      → Keeps I (lift r >>= f)
  unfolding ◌>>=◌
  Keeps-continue (ok a) f kf = record { at = (kf a).at }
  Keeps-continue (err e) f kf = record { at = λ w h. h }

  pub verify_token-Keeps :
      (env : Env) (now : ℕ) (token message : String)
      → Keeps I (verify_token_or_raise env now token message)
  unfolding verify_token_or_raise
  verify_token-Keeps env now token message = Keeps-lift _

  pub Keeps-bind :
      {A B : Type 0} (m : Action A) (f : A → Action B)
      → Keeps I m
      → ((a : A) → Keeps I (f a))
      → Keeps I (m >>= f)
  unfolding ◌>>=◌
  Keeps-bind m f km kf = record {
    at = λ w h. let (r, w') = m w in (Keeps-continue r f kf).at w' (km.at w h);
  }

-- A transaction that throws leaves the database as it was.
pub Keeps-transaction :
    {A : Type 0} {I : Db → Type 0} (m : Action A) → Keeps I m → Keeps I (transaction m)
unfolding transaction
Keeps-transaction {A} {I} m k = record { at = λ w h. let (r, w') = m w in go r w' (k.at w h) h }
  where
    go : (r : Result A) (w' : World) {db : Db} → I w'.db → I db → I (settle db r w').1.db
    go (ok a) w' h old = h
    go (err e) w' h old = old

pub Keeps-attempt : {A : Type 0} {I : Db → Type 0} (m : Action A) → Keeps I m → Keeps I (attempt m)
unfolding attempt
Keeps-attempt m k = record { at = λ w h. k.at w h }

module _ {I : Db → Type 0} where
  pub invalidate_for_start-Keeps :
      (env : Env) (tenant salesperson : ℕ) (timezone : String) (start : ℕ)
      → Keeps I (invalidate_for_start env tenant salesperson timezone start)
  unfolding invalidate_for_start
  invalidate_for_start-Keeps env tenant salesperson timezone start =
      search (Keeps-bind, Keeps-modify_cache)

  pub public_tenant-Keeps : (slug : String) → Keeps I (public_tenant_or_raise slug)
  unfolding public_tenant_or_raise
  public_tenant-Keeps slug =
      search (Keeps-bind, Keeps-gets, Keeps-or_raise, Keeps-raise_if, Keeps-pure)

pub ruleset keeps_rules = (
  Keeps-pure, Keeps-lift, Keeps-raise, Keeps-gets, Keeps-gets_cache, Keeps-or_raise, Keeps-if,
  Keeps-raise_if, Keeps-modify_cache, Keeps-log_call, Keeps-bind, verify_token-Keeps,
  invalidate_for_start-Keeps, public_tenant-Keeps, Keeps-attempt,
)
