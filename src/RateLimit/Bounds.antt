-- ===== src/RateLimit/Bounds.antt =====
-- About the counting of requests in apps/api/src/middleware/public-rate-limit.ts.
use booking_zoom_connect.Prelude.{
  ℕ, suc, Bool, true, ◌≡◌, refl, Option, none, some, List, [], ◌∷◌, ◌+◌, ◌-◌, ◌≤◌, ◌<◌, max, arith,
  Bool-cases, inl, inr, list_eq_sound, list_eq_refl, str_eq_iff, str_eq_refl,
}
use booking_zoom_connect.RateLimit.{
  Bucket, Buckets, Key, Kind, same_key, kind_eq, get, set, count_request, check, fresh_bucket,
  counted,
}

-- The requests of a run that pass with key `k`; each request is a key and an instant.
abbrev pub add_pass : Bool → Bool → ℕ → ℕ
add_pass true true n = suc n
add_pass _ _ n = n

unfoldable pub passes : ℕ → ℕ → Key → List (Key × ℕ) → Buckets → ℕ
passes window limit k [] bs = 0
passes window limit k ((j, now) ∷ rs) bs =
    let (ok, bs') = check window limit now j bs in
    add_pass (same_key j k) ok (passes window limit k rs bs')

-- All the instants come before `until`.
abbrev pub AllBefore : ℕ → List (Key × ℕ) → Type 0
AllBefore until [] = Unit
AllBefore until ((j, now) ∷ rs) = (now < until) × AllBefore until rs

kind_eq_sound : (a b : Kind) → kind_eq a b ≡ true → a ≡ b
kind_eq_sound a b h = ground arith

kind_eq_refl : (a : Kind) → kind_eq a a ≡ true
kind_eq_refl a = ground arith

same_key_sound : (a b : Key) → same_key a b ≡ true → a ≡ b
same_key_sound a b h = ground (
  arith,
  list_eq_sound a.tenant_slug b.tenant_slug,
  kind_eq_sound a.kind b.kind,
  str_eq_iff a.ip b.ip,
)

same_key_refl : (k : Key) → same_key k k ≡ true
same_key_refl k = ground (arith, list_eq_refl k.tenant_slug, kind_eq_refl k.kind, str_eq_refl k.ip)

-- A bucket in its window lets through what the limit leaves.
passes_in_window :
    (window limit : ℕ) (k : Key) (rs : List (Key × ℕ)) (bs : Buckets) (b : Bucket)
    → get k bs ≡ some b
    → AllBefore b.reset_at_ms rs
    → passes window limit k rs bs ≤ limit - b.count
unfolding passes check set get count_request
passes_in_window window limit k [] bs b found inside = omega arith
passes_in_window window limit k ((j, now) ∷ rs) bs b found (early, inside) =
    elim (Bool-cases (same_key j k)) [
      | inl same ↦ ground (
        arith,
        same_key_sound j k same,
        passes_in_window window limit k rs (set j (counted b) bs) (counted b),
      )
      | inr other ↦
          ground (arith, passes_in_window window limit k rs (check window limit now j bs).1 b)
    ]

-- There is no bucket, or its window is over.
abbrev pub IsOver : ℕ → Option Bucket → Type 0
IsOver now none = Unit
IsOver now (some b) = b.reset_at_ms ≤ now

-- A request that opens a window passes.
count_opens :
    (window limit now : ℕ) (o : Option Bucket)
    → IsOver now o
    → count_request window limit now o ≡ (true, fresh_bucket window now)
unfolding count_request
count_opens window limit now none over = refl
count_opens window limit now (some b) over = ground arith

-- Where a key has no bucket or one whose window is over, the requests with the key that come before
-- a window's length after the first of them pass at most as often as the limit says, or once where
-- the limit is 0. Requests with other keys in between make no difference.
pub window_bound :
    (window limit now : ℕ) (k : Key) (rs : List (Key × ℕ)) (bs : Buckets)
    → IsOver now (get k bs)
    → AllBefore (now + window) rs
    → passes window limit k ((k, now) ∷ rs) bs ≤ max 1 limit
unfolding passes check set get
window_bound window limit now k rs bs over inside = ground (
  arith,
  same_key_refl k,
  count_opens window limit now (get k bs) over,
  passes_in_window window limit k rs (set k (fresh_bucket window now) bs) (fresh_bucket window now),
)
