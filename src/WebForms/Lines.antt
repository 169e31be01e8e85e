-- ===== src/WebForms/Lines.antt =====
-- About the notes of a booking, on the page (apps/web/app/public/[tenantSlug]/helpers.ts) and in the API
-- (apps/api/src/services/booking.service.ts).
use booking_zoom_connect.Prelude.{
  ℕ, ◌≡◌, ◌≢◌, refl, sym, ap, ◌∙◌, inl, inr, Bool, true, false, Option, none, some, List, [], ◌∷◌,
  arith, take, Bool-cases,
}
use booking_zoom_connect.Notes.{
  is_space, join_lines, trim_start, trim_end, keep_before, collapse_spaces, one_line,
  normalize_public_notes, clip,
}
use booking_zoom_connect.WebForms.{trim, normalize_optional_line}

space_start :
    (r : Bool) (c : ℕ) (s : List ℕ)
    → is_space c ≡ true
    → trim_start (collapse_spaces true s) ≡ collapse_spaces false (trim_start s)
    → trim_start (collapse_spaces r (c ∷ s)) ≡ collapse_spaces false (trim_start (c ∷ s))
unfolding trim_start collapse_spaces
space_start true c s space later = rw space later
space_start false c s space later = rw space later

trim_start-collapse_spaces :
    (r : Bool) (s : List ℕ)
    → trim_start (collapse_spaces r s) ≡ collapse_spaces false (trim_start s)
unfolding trim_start collapse_spaces
trim_start-collapse_spaces r [] = refl
trim_start-collapse_spaces r (c ∷ s) = elim (Bool-cases (is_space c)) [
  | inl space ↦ space_start r c s space (trim_start-collapse_spaces true s)
  | inr other ↦ rw (other, trim_start, collapse_spaces) (ground arith)
]

keep_before-cons : (c : ℕ) (u : List ℕ) → u ≢ [] → keep_before c u ≡ c ∷ u
keep_before-cons c [] h = absurd (h refl)
keep_before-cons c (d ∷ u) h = refl

-- A trimmed text that is not empty has a character that is no space.
abbrev IsKept : List ℕ → Type 0
IsKept t = (r : Bool) → collapse_spaces r t ≡ [] → t ≡ []

cons_not_nil : (c : ℕ) (u : List ℕ) → (c ∷ u) ≢ []
cons_not_nil c u e = ground arith

keep_space : (c : ℕ) → is_space c ≡ true → keep_before c [] ≡ []
keep_space c space = rw space refl

keep_other : (c : ℕ) → is_space c ≡ false → keep_before c [] ≡ c ∷ []
keep_other c other = rw other refl

collapse_in_run :
    (c : ℕ) (s : List ℕ) → is_space c ≡ true → collapse_spaces true (c ∷ s) ≡ collapse_spaces true s
unfolding collapse_spaces
collapse_in_run c s space = rw space refl

collapse_run :
    (c : ℕ) (s : List ℕ)
    → is_space c ≡ true
    → collapse_spaces false (c ∷ s) ≡ 32 ∷ collapse_spaces true s
unfolding collapse_spaces
collapse_run c s space = rw space refl

collapse_other :
    (r : Bool) (c : ℕ) (s : List ℕ)
    → is_space c ≡ false
    → collapse_spaces r (c ∷ s) ≡ c ∷ collapse_spaces false s
unfolding collapse_spaces
collapse_other r c s other = rw other refl

run-IsKept :
    (c d : ℕ) (t : List ℕ) (r : Bool)
    → IsKept (d ∷ t)
    → is_space c ≡ true
    → collapse_spaces r (c ∷ d ∷ t) ≢ []
run-IsKept c d t true k space h =
    cons_not_nil d t (k true (sym (collapse_in_run c (d ∷ t) space) ∙ h))
run-IsKept c d t false k space h =
    cons_not_nil 32 (collapse_spaces true (d ∷ t)) (sym (collapse_run c (d ∷ t) space) ∙ h)

keep_before-IsKept : (c : ℕ) (t : List ℕ) → IsKept t → IsKept (keep_before c t)
keep_before-IsKept c [] k r h = elim (Bool-cases (is_space c)) [
  | inl space ↦ keep_space c space
  | inr other ↦ absurd (
      cons_not_nil c (collapse_spaces false [])
        (sym (collapse_other r c [] other) ∙ ap (collapse_spaces r) (sym (keep_other c other)) ∙ h))
]
keep_before-IsKept c (d ∷ t) k r h = elim (Bool-cases (is_space c)) [
  | inr other ↦
      absurd (
        cons_not_nil c (collapse_spaces false (d ∷ t)) (sym (collapse_other r c (d ∷ t) other) ∙ h))
  | inl space ↦ absurd (run-IsKept c d t r k space h)
]

trim_end-IsKept : (s : List ℕ) → IsKept (trim_end s)
unfolding trim_end
trim_end-IsKept [] r h = refl
trim_end-IsKept (c ∷ s) r h = keep_before-IsKept c (trim_end s) (trim_end-IsKept s) r h

-- A space at the end, and one inside.
end_run :
    (r : Bool) (c : ℕ) (s : List ℕ)
    → is_space c ≡ true
    → ((q : Bool) → trim_end (collapse_spaces q s) ≡ collapse_spaces q [])
    → trim_end (collapse_spaces r (c ∷ s)) ≡ collapse_spaces r (keep_before c [])
unfolding trim_end collapse_spaces
end_run true c s space same =
    ap trim_end (collapse_in_run c s space)
    ∙ same true
    ∙ ap (collapse_spaces true) (sym (keep_space c space))
end_run false c s space same =
    ap trim_end (collapse_run c s space)
    ∙ ap (keep_before 32) (same true)
    ∙ ap (collapse_spaces false) (sym (keep_space c space))

inner_run :
    (r : Bool) (c d : ℕ) (s t : List ℕ)
    → is_space c ≡ true
    → IsKept (d ∷ t)
    → ((q : Bool) → trim_end (collapse_spaces q s) ≡ collapse_spaces q (d ∷ t))
    → trim_end (collapse_spaces r (c ∷ s)) ≡ collapse_spaces r (c ∷ d ∷ t)
unfolding trim_end
inner_run true c d s t space k same =
    ap trim_end (collapse_in_run c s space) ∙ same true ∙ sym (collapse_in_run c (d ∷ t) space)
inner_run false c d s t space k same =
    ap trim_end (collapse_run c s space)
    ∙ ap (keep_before 32) (same true)
    ∙ keep_before-cons 32 (collapse_spaces true (d ∷ t)) (λ e. cons_not_nil d t (k true e))
    ∙ sym (collapse_run c (d ∷ t) space)

-- One character before a trimmed text.
collapse-keep_before :
    (r : Bool) (c : ℕ) (s t : List ℕ)
    → IsKept t
    → ((q : Bool) → trim_end (collapse_spaces q s) ≡ collapse_spaces q t)
    → trim_end (collapse_spaces r (c ∷ s)) ≡ collapse_spaces r (keep_before c t)
unfolding trim_end collapse_spaces
collapse-keep_before r c s [] k same = elim (Bool-cases (is_space c)) [
  | inl space ↦ end_run r c s space same
  | inr other ↦
      ap trim_end (collapse_other r c s other)
      ∙ ap (keep_before c) (same false)
      ∙ keep_other c other
      ∙ sym (collapse_other r c [] other)
      ∙ ap (collapse_spaces r) (sym (keep_other c other))
]
collapse-keep_before r c s (d ∷ t) k same = elim (Bool-cases (is_space c)) [
  | inl space ↦ inner_run r c d s t space k same
  | inr other ↦
      ap trim_end (collapse_other r c s other)
      ∙ ap (keep_before c) (same false)
      ∙ keep_before-cons c (collapse_spaces false (d ∷ t)) (λ e. cons_not_nil d t (k false e))
      ∙ sym (collapse_other r c (d ∷ t) other)
]

trim_end-collapse_spaces :
    (r : Bool) (s : List ℕ) → trim_end (collapse_spaces r s) ≡ collapse_spaces r (trim_end s)
unfolding trim_end collapse_spaces
trim_end-collapse_spaces r [] = refl
trim_end-collapse_spaces r (c ∷ s) =
    collapse-keep_before r c s (trim_end s) (trim_end-IsKept s) (λ q. trim_end-collapse_spaces q s)

abbrev pub some_line : List ℕ → Option (List ℕ)
some_line [] = none
some_line (c ∷ s) = some (c ∷ s)

clip-some_line : (s : List ℕ) → clip s ≡ some_line (take 500 s)
clip-some_line [] = refl
clip-some_line (c ∷ s) = refl

normalize_public_notes-clip : (s : List ℕ) → normalize_public_notes (some s) ≡ clip (one_line s)
unfolding normalize_public_notes join_lines trim_start trim_end collapse_spaces
normalize_public_notes-clip [] = refl
normalize_public_notes-clip (c ∷ s) = refl

trim-collapse_spaces :
    (s : List ℕ) → trim (collapse_spaces false s) ≡ collapse_spaces false (trim s)
trim-collapse_spaces s =
    ap trim_end (trim_start-collapse_spaces false s) ∙ trim_end-collapse_spaces false (trim_start s)

-- The page and the API make the same of every text of notes: the line that the page sends, cut at 500
-- characters, is what the API makes of the text as it was typed, and an empty line is no notes. (The
-- page makes one line and then trims; the API trims and then makes one line.)
pub lines_agree :
    (s : List ℕ)
    → normalize_public_notes (some s) ≡ some_line (normalize_optional_line (some s) 500)
unfolding normalize_optional_line
lines_agree s =
    normalize_public_notes-clip s
    ∙ clip-some_line (one_line s)
    ∙ ap (λ x. some_line (take 500 x)) (sym (trim-collapse_spaces (join_lines s)))
