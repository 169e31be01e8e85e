-- ===== src/Notes/Laws.antt =====
-- About `normalizePublicNotes` (apps/api/src/services/booking.service.ts).
use booking_zoom_connect.Prelude.{
  ℕ, zero, suc, ◌≡◌, ◌⊎◌, inl, inr, Bool, true, false, Option, none, some, List, [], ◌∷◌, ◌≤◌,
  length, take, length-take-le, arith, Bool-cases, subst,
}
use booking_zoom_connect.Notes.{
  is_space, join_lines, trim_start, trim_end, keep_before, collapse_spaces, one_line, clip,
  normalize_public_notes,
}

-- The only space is the blank, and no two blanks meet; the flag says that a space goes before.
abbrev pub IsTidy : Bool → List ℕ → Type 0
IsTidy after [] = Unit
IsTidy after (c ∷ s) = ((is_space c ≡ false) ⊎ ((c ≡ 32) × (after ≡ false))) × IsTidy (is_space c) s

-- The text does not begin with a space.
abbrev StartsClean : List ℕ → Type 0
StartsClean [] = Unit
StartsClean (c ∷ s) = is_space c ≡ false

collapse-IsTidy : (after : Bool) (s : List ℕ) → IsTidy after (collapse_spaces after s)
unfolding collapse_spaces
collapse-IsTidy after [] = tt
collapse-IsTidy after (c ∷ s) = elim (Bool-cases (is_space c)) [
  | inr solid ↦ ground (arith, collapse-IsTidy (is_space c) s)
  | inl space ↦ elim (Bool-cases after) [
    | inl again ↦ ground (arith, collapse-IsTidy (is_space c) s)
    | inr first ↦ ground (arith, collapse-IsTidy (is_space c) s)
  ]
]

collapse-StartsClean : (s : List ℕ) → StartsClean s → StartsClean (collapse_spaces false s)
unfolding collapse_spaces
collapse-StartsClean [] h = tt
collapse-StartsClean (c ∷ s) h = ground arith

trim_start-StartsClean : (s : List ℕ) → StartsClean (trim_start s)
unfolding trim_start
trim_start-StartsClean [] = tt
trim_start-StartsClean (c ∷ s) = elim (Bool-cases (is_space c)) [
  | inl space ↦ ground (arith, trim_start-StartsClean s)
  | inr solid ↦ ground arith
]

keep_before-StartsClean : (c : ℕ) (s : List ℕ) → is_space c ≡ false → StartsClean (keep_before c s)
keep_before-StartsClean c [] h = ground arith
keep_before-StartsClean c (d ∷ s) h = h

trim_end-StartsClean : (s : List ℕ) → StartsClean s → StartsClean (trim_end s)
unfolding trim_end
trim_end-StartsClean [] h = tt
trim_end-StartsClean (c ∷ s) h = keep_before-StartsClean c (trim_end s) h

take-IsTidy : (n : ℕ) (after : Bool) (s : List ℕ) → IsTidy after s → IsTidy after (take n s)
take-IsTidy zero after s h = tt
take-IsTidy (suc n) after [] h = tt
take-IsTidy (suc n) after (c ∷ s) (h, k) = (h, take-IsTidy n (is_space c) s k)

sharpen : (s : List ℕ) → IsTidy false s → StartsClean s → IsTidy true s
sharpen [] t h = tt
sharpen (c ∷ s) (_, k) h = (inl h, k)

one_line-IsTidy : (s : List ℕ) → IsTidy true (one_line s)
one_line-IsTidy s =
    sharpen _ (collapse-IsTidy false _)
      (collapse-StartsClean _ (trim_end-StartsClean _ (trim_start-StartsClean (join_lines s))))

clip_fits :
    (s out : List ℕ) → IsTidy true s → clip s ≡ some out → (length out ≤ 500) × IsTidy true out
clip_fits [] out t h = ground arith
clip_fits (c ∷ s) out t h =
    let e : take 500 (c ∷ s) ≡ out = ground arith in
    subst (λ o. (length o ≤ 500) × IsTidy true o) e
      (length-take-le 500 (c ∷ s), take-IsTidy 500 true (c ∷ s) t)

-- Stored notes have at most 500 characters, no space but the blank, so no line break, no two blanks
-- in a row, and no blank at the front.
pub notes_fit :
    (notes : Option (List ℕ)) (out : List ℕ)
    → normalize_public_notes notes ≡ some out
    → (length out ≤ 500) × IsTidy true out
unfolding normalize_public_notes
notes_fit none out h = ground arith
notes_fit (some []) out h = ground arith
notes_fit (some (c ∷ s)) out h = clip_fits (one_line (c ∷ s)) out (one_line-IsTidy (c ∷ s)) h
