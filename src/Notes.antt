-- ===== src/Notes.antt =====
-- `normalizeBookingMode` and `normalizePublicNotes` of apps/api/src/services/booking.service.ts.
-- Notes are lists of UTF-16 code units.
pub mod Laws
use booking_zoom_connect.Prelude.{
  ℕ, String, Bool, true, false, ◌&&◌, ◌||◌, Option, none, some, List, [], ◌∷◌, leb, ◌==◌, str_eq,
  if◌then◌else◌, take,
}
use booking_zoom_connect.Service.{Result, ok, err, bad_request, is_empty}

unfoldable pub normalize_booking_mode : Option String → Result String
normalize_booking_mode none = ok "online"
normalize_booking_mode (some mode) =
    if is_empty mode || str_eq mode "online"
    then ok "online"
    else if str_eq mode "offline"
    then ok "offline"
    else err (bad_request "booking_mode must be 'online' or 'offline'")

-- The class `\s` of a regular expression, which `trim` uses too.
abbrev pub is_space : ℕ → Bool
is_space c =
    leb 9 c && leb c 13
    || c == 32
    || c == 0xa0
    || c == 0x1680
    || leb 0x2000 c && leb c 0x200a
    || c == 0x2028
    || c == 0x2029
    || c == 0x202f
    || c == 0x205f
    || c == 0x3000
    || c == 0xfeff

-- `replace(/\r?\n/g, " ")`
unfoldable pub join_lines : List ℕ → List ℕ
join_lines [] = []
join_lines (c ∷ []) = (if c == 10 then 32 else c) ∷ []
join_lines (c ∷ d ∷ s) =
    let rest = join_lines (d ∷ s) in
    if c == 13 && d == 10 then rest else (if c == 10 then 32 else c) ∷ rest

unfoldable pub trim_start : List ℕ → List ℕ
trim_start [] = []
trim_start (c ∷ s) = if is_space c then trim_start s else c ∷ s

-- The character goes if it is a space and nothing is left behind it.
abbrev pub keep_before : ℕ → List ℕ → List ℕ
keep_before c [] = if is_space c then [] else c ∷ []
keep_before c (d ∷ r) = c ∷ d ∷ r

unfoldable pub trim_end : List ℕ → List ℕ
trim_end [] = []
trim_end (c ∷ s) = keep_before c (trim_end s)

-- `replace(/\s+/g, " ")`: a run of spaces gives one blank, at its first space.
unfoldable pub collapse_spaces : Bool → List ℕ → List ℕ
collapse_spaces in_run [] = []
collapse_spaces in_run (c ∷ s) =
    let rest = collapse_spaces (is_space c) s in
    if is_space c then (if in_run then rest else 32 ∷ rest) else c ∷ rest

abbrev pub one_line : List ℕ → List ℕ
one_line notes = collapse_spaces false (trim_end (trim_start (join_lines notes)))

abbrev pub clip : List ℕ → Option (List ℕ)
clip [] = none
clip (c ∷ s) = some (take 500 (c ∷ s))

unfoldable pub normalize_public_notes : Option (List ℕ) → Option (List ℕ)
normalize_public_notes none = none
normalize_public_notes (some []) = none
normalize_public_notes (some (c ∷ s)) = clip (one_line (c ∷ s))
