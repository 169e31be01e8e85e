-- ===== src/WebForms/Slots.antt =====
-- About the choice of a slot: the value that the pages write into the form
-- (apps/web/app/public/[tenantSlug]/PublicBookingEnhancer.tsx, reschedule/page.tsx) and its parser in
-- helpers.ts.
use booking_zoom_connect.Prelude.{
  ℕ, ◌≡◌, ◌≢◌, refl, ap, ◌∙◌, Bool, true, false, not, ◌&&◌, none, some, List, [], ◌∷◌, ◌++◌, ◌==◌,
  arith, codes,
}
use booking_zoom_connect.Notes.{is_space, trim_start, trim_end, keep_before}
use booking_zoom_connect.WebForms.{
  Slot, FormData, trim, split_bar, slot_of, second_part, parse_slot_choice,
  parse_slot_from_form_data, normalize_text,
}

-- The value of a radio button.
abbrev pub slot_value : Slot → List ℕ
slot_value slot = slot.start_at_utc ++ (b'|' ∷ slot.end_at_utc)

-- A text without spaces and bars, such as an instant in ISO format.
unfoldable pub is_plain : List ℕ → Bool
is_plain [] = true
is_plain (c ∷ s) = not (is_space c) && (not (c == b'|') && is_plain s)

plain_head :
    (c : ℕ) (s : List ℕ)
    → is_plain (c ∷ s) ≡ true
    → (is_space c ≡ false) × ((c == b'|') ≡ false) × (is_plain s ≡ true)
unfolding is_plain
plain_head c s h = (ground arith, ground arith, ground arith)

trim_start-plain : (s : List ℕ) → is_plain s ≡ true → trim_start s ≡ s
unfolding trim_start
trim_start-plain [] h = refl
trim_start-plain (c ∷ s) h = let (other, _, _) = plain_head c s h in rw other refl

keep_before-plain : (c : ℕ) (s : List ℕ) → is_space c ≡ false → keep_before c s ≡ c ∷ s
keep_before-plain c [] h = rw h refl
keep_before-plain c (d ∷ s) h = refl

trim_end-plain : (s : List ℕ) → is_plain s ≡ true → trim_end s ≡ s
unfolding trim_end
trim_end-plain [] h = refl
trim_end-plain (c ∷ s) h =
    let (other, _, rest) = plain_head c s h in
    ap (keep_before c) (trim_end-plain s rest) ∙ keep_before-plain c s other

trim-plain : (s : List ℕ) → is_plain s ≡ true → trim s ≡ s
trim-plain s h = ap trim_end (trim_start-plain s h) ∙ trim_end-plain s h

split_bar-plain : (s : List ℕ) → is_plain s ≡ true → split_bar s ≡ (s, none)
unfolding split_bar
split_bar-plain [] h = refl
split_bar-plain (c ∷ s) h =
    let (_, bar, rest) = plain_head c s h in rw (split_bar-plain s rest, bar) refl

split_bar-join : (s t : List ℕ) → is_plain s ≡ true → split_bar (s ++ (b'|' ∷ t)) ≡ (s, some t)
unfolding split_bar
split_bar-join [] t h = refl
split_bar-join (c ∷ s) t h =
    let (_, bar, rest) = plain_head c s h in rw (split_bar-join s t rest, bar) refl

slot_of-parts :
    (s e : List ℕ)
    → s ≢ []
    → e ≢ []
    → slot_of s e ≡ some (record { start_at_utc = s; end_at_utc = e })
slot_of-parts [] e hs he = absurd (hs refl)
slot_of-parts (c ∷ s) [] hs he = absurd (he refl)
slot_of-parts (c ∷ s) (d ∷ e) hs he = refl

parse_slot_choice-slot_value :
    (slot : Slot)
    → is_plain slot.start_at_utc ≡ true
    → is_plain slot.end_at_utc ≡ true
    → slot.start_at_utc ≢ []
    → slot.end_at_utc ≢ []
    → parse_slot_choice (some (slot_value slot)) ≡ some slot
unfolding parse_slot_choice
parse_slot_choice-slot_value slot ps pe hs he =
    rw
      (
        split_bar-join slot.start_at_utc slot.end_at_utc ps,
        second_part,
        split_bar-plain slot.end_at_utc pe,
        trim-plain slot.start_at_utc ps,
        trim-plain slot.end_at_utc pe,
      )
      (slot_of-parts slot.start_at_utc slot.end_at_utc hs he)

no_text : normalize_text none 64 ≡ []
unfolding normalize_text trim_start trim_end
no_text = refl

-- The slot that is chosen on a page is the slot that the server reads from the form, if its two instants
-- are texts without spaces and bars, not empty, and the form has no instants in fields of their own.
pub parse_slot_from_form_data-slot_value :
    (form : FormData) (slot : Slot)
    → is_plain slot.start_at_utc ≡ true
    → is_plain slot.end_at_utc ≡ true
    → slot.start_at_utc ≢ []
    → slot.end_at_utc ≢ []
    → form (codes "start_at_utc") ≡ none
    → form (codes "end_at_utc") ≡ none
    → form (codes "slot_choice") ≡ some (slot_value slot)
    → parse_slot_from_form_data form ≡ some slot
unfolding parse_slot_from_form_data
parse_slot_from_form_data-slot_value form slot ps pe hs he start end choice =
    rw (start, end, choice, no_text) (parse_slot_choice-slot_value slot ps pe hs he)
