-- ===== src/Availability/Clock.antt =====
-- `parseHm` of apps/api/src/services/booking.service.ts, by the clauses of its regular expression
-- `^([01]?\d|2[0-3]):([0-5]\d)$`. No match is `none`; the callers put in their fallback.
pub mod Laws
use booking_zoom_connect.Prelude.{
  ℕ, Bool, true, false, ◌&&◌, ◌||◌, Option, none, some, List, [], ◌∷◌, ◌+◌, ◌-◌, ◌*◌, leb, ◌==◌,
  if◌then◌else◌,
}

abbrev pub is_digit : ℕ → Bool
is_digit c = leb b'0' c && leb c b'9'

abbrev pub digit : ℕ → ℕ
digit c = c - b'0'

-- `[01]\d|2[0-3]`
abbrev pub is_hour : ℕ → ℕ → Bool
is_hour a b = (a == b'0' || a == b'1') && is_digit b || a == b'2' && leb b'0' b && leb b b'3'

-- `[0-5]\d`
abbrev pub is_minute : ℕ → ℕ → Bool
is_minute c d = leb b'0' c && leb c b'5' && is_digit d

abbrev pub two_digits : ℕ → ℕ → ℕ
two_digits a b = digit a * 10 + digit b

unfoldable pub parse_hm : List ℕ → Option ℕ
parse_hm (a ∷ s ∷ c ∷ d ∷ []) =
    if is_digit a && s == b':' && is_minute c d then some (digit a * 60 + two_digits c d) else none
parse_hm (a ∷ b ∷ s ∷ c ∷ d ∷ []) =
    if is_hour a b && s == b':' && is_minute c d
    then some (two_digits a b * 60 + two_digits c d)
    else none
parse_hm _ = none

-- A missing field, or the text of one.
abbrev pub parse_field : Option (List ℕ) → Option ℕ
parse_field none = none
parse_field (some s) = parse_hm s
