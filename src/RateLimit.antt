-- ===== src/RateLimit.antt =====
-- The rate limit of the public endpoints (apps/api/src/middleware/public-rate-limit.ts). Texts that
-- the code takes apart are lists of character codes. The client's address, which the code reads
-- from the headers and the socket, is a field of the request.
pub mod Bounds
use booking_zoom_connect.Prelude.{
  ℕ, suc, String, Bool, true, false, not, ◌&&◌, ◌||◌, Option, none, some, List, [], ◌∷◌, ◌+◌, leb,
  ◌==◌, str_eq, if◌then◌else◌, codes, list_eq,
}

pub record Bucket : Type 0 where
  pub count : ℕ
  pub reset_at_ms : ℕ

pub data Kind : Type 0 where
  holds confirm verify : Kind

abbrev pub kind_eq : Kind → Kind → Bool
kind_eq holds holds = true
kind_eq confirm confirm = true
kind_eq verify verify = true
kind_eq _ _ = false

-- `tenantSlug:kind:ip`
pub record Key : Type 0 where
  pub tenant_slug : List ℕ
  pub kind : Kind
  pub ip : String

abbrev pub same_key : Key → Key → Bool
same_key a b = list_eq a.tenant_slug b.tenant_slug && kind_eq a.kind b.kind && str_eq a.ip b.ip

abbrev pub Buckets : Type 0
Buckets = List (Key × Bucket)

-- `buckets.get(k)`
unfoldable pub get : Key → Buckets → Option Bucket
get k [] = none
get k ((j, b) ∷ bs) = if same_key j k then some b else get k bs

-- `buckets.set(k, b)`: the latest binding is found first.
unfoldable pub set : Key → Bucket → Buckets → Buckets
set k b bs = (k, b) ∷ bs

pub record Limits : Type 0 where
  pub enabled : Bool
  pub window_ms : ℕ
  pub holds_max : ℕ
  pub confirm_max : ℕ
  pub verify_max : ℕ

abbrev pub fresh_bucket : ℕ → ℕ → Bucket
fresh_bucket window now = record { count = 1; reset_at_ms = now + window }

abbrev pub counted : Bucket → Bucket
counted b = record b { count = suc b.count }

-- One bucket at one request: whether it passes, and the bucket after it.
unfoldable pub count_request : ℕ → ℕ → ℕ → Option Bucket → Bool × Bucket
count_request window limit now none = (true, fresh_bucket window now)
count_request window limit now (some b) =
    if leb b.reset_at_ms now
    then (true, fresh_bucket window now)
    else (leb (suc b.count) limit, counted b)

-- `check`
unfoldable pub check : ℕ → ℕ → ℕ → Key → Buckets → Bool × Buckets
check window limit now k bs =
    let (passes, b) = count_request window limit now (get k bs) in (passes, set k b bs)

-- `url.split("?")[0]`
unfoldable pub before_query : List ℕ → List ℕ
before_query [] = []
before_query (c ∷ s) = let rest = before_query s in if c == b'?' then [] else c ∷ rest

abbrev add_part : List ℕ → List (List ℕ) → List (List ℕ)
add_part [] parts = parts
add_part (c ∷ s) parts = (c ∷ s) ∷ parts

abbrev pub split_char : ℕ → List ℕ × List (List ℕ) → List ℕ × List (List ℕ)
split_char c (part, parts) = if c == b'/' then ([], add_part part parts) else (c ∷ part, parts)

-- The text up to the first slash, and the parts behind it that are not empty.
unfoldable pub split_parts : List ℕ → List ℕ × List (List ℕ)
split_parts [] = ([], [])
split_parts (c ∷ s) = split_char c (split_parts s)

-- `split("/").filter(Boolean)`
unfoldable pub path_parts : List ℕ → List (List ℕ)
path_parts url = let (part, parts) = split_parts url in add_part part parts

abbrev pub slash_join : List ℕ → List ℕ → List ℕ
slash_join [] tail = b'/' ∷ tail
slash_join (c ∷ s) tail = c ∷ slash_join s tail

-- `join("/")`
unfoldable pub join_parts : List (List ℕ) → List ℕ
join_parts [] = []
join_parts (p ∷ []) = p
join_parts (p ∷ q ∷ ps) = slash_join p (join_parts (q ∷ ps))

abbrev pub is_prefix : List ℕ → List ℕ → Bool
is_prefix [] s = true
is_prefix (c ∷ p) [] = false
is_prefix (c ∷ p) (d ∷ s) = c == d && is_prefix p s

pub record HttpRequest : Type 0 where
  pub url : List ℕ
  pub is_post : Bool
  pub client : String

abbrev pub slug_of : List (List ℕ) → List ℕ
slug_of (_ ∷ _ ∷ slug ∷ _) = slug
slug_of _ = []

-- `parts.slice(3)`
abbrev pub tail_of : List (List ℕ) → List (List ℕ)
tail_of (_ ∷ _ ∷ _ ∷ tail) = tail
tail_of _ = []

-- The kind of a write endpoint, by the rest of its path.
unfoldable pub kind_of : List ℕ → Option Kind
kind_of tail =
    if list_eq tail (codes "holds")
    then some holds
    else if list_eq tail (codes "confirm") || list_eq tail (codes "confirm-by-id")
    then some confirm
    else if list_eq tail (codes "auth/verify-email")
    then some verify
    else none

abbrev pub limit_of : Limits → Kind → ℕ
limit_of l holds = l.holds_max
limit_of l confirm = l.confirm_max
limit_of l verify = l.verify_max

unfoldable pub check_kind :
    Limits → ℕ → HttpRequest → List ℕ → Option Kind → Buckets → Bool × Buckets
check_kind l now r slug none bs = (true, bs)
check_kind l now r slug (some k) bs =
    check l.window_ms (limit_of l k) now (record { tenant_slug = slug; kind = k; ip = r.client }) bs

-- The middleware: whether the request goes on (`next()`), or is answered with status 429.
unfoldable pub limit_request : Limits → ℕ → HttpRequest → Buckets → Bool × Buckets
limit_request l now r bs =
    if not l.enabled || not (is_prefix (codes "/v1/public/") r.url) || not r.is_post
    then (true, bs)
    else let parts = path_parts (before_query r.url) in
      check_kind l now r (slug_of parts) (kind_of (join_parts (tail_of parts))) bs
