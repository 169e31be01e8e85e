-- ===== src/Availability/Context/Slots.antt =====
-- About the loop of `buildAvailabilityContext` (apps/api/src/services/booking.service.ts).
use booking_zoom_connect.Prelude.{
  ℕ, zero, suc, ◌≡◌, refl, ◌⊎◌, inl, inr, Bool, true, false, Option, none, some, List, [], ◌∷◌, ◌+◌,
  ◌*◌, ◌-◌, ◌/◌, ◌<◌, ◌≤◌, leb, In, arith, Bool-cases, ◌↔◌,
}
use booking_zoom_connect.Store.{Minutes, whole, negative}
use booking_zoom_connect.Service.{Slot}
use booking_zoom_connect.Busy.{minutes, count_of}
use booking_zoom_connect.Availability.Context.{slot_loop, push_if, run_loop}

-- The specification, without the loop: the slot is one of the consecutive ones from the cursor on,
-- ends by the day's end, and is kept.
abbrev pub IsGridSlot : (ℕ → ℕ → Bool) → ℕ → ℕ → ℕ → Slot → Type 0
IsGridSlot keep step day_end cursor s =
    (k : ℕ) × (s.start_at_utc ≡ cursor + k * step)
    × (s.end_at_utc ≡ s.start_at_utc + step)
    × (s.end_at_utc ≤ day_end)
    × (keep s.start_at_utc s.end_at_utc ≡ true)

module _ (keep : ℕ → ℕ → Bool) (step day_end : ℕ) where
  -- A round that goes on.
  push_if-In :
      (c : Bool) (start end : ℕ) (o : Option (List Slot)) (l : List Slot)
      → push_if c start end o ≡ some l
      → (r : List Slot) × (o ≡ some r)
        × ((s : Slot)
            → In s l
              ↔ (((c ≡ true) × (s ≡ record { start_at_utc = start; end_at_utc = end })) ⊎ In s r))
  push_if-In c start end none l h = ground arith
  push_if-In true start end (some r) l h = (r, refl, λ s. ground arith)
  push_if-In false start end (some r) l h = (r, refl, λ s. ground arith)

  next_grid :
      (cursor : ℕ) (s : Slot)
      → IsGridSlot keep step day_end (cursor + step) s
      → IsGridSlot keep step day_end cursor s
  next_grid cursor s (k, a, b, c, d) = (suc k, omega (arith, a), b, c, d)

  pub slot_loop_sound :
      (fuel cursor : ℕ) (l : List Slot) (s : Slot)
      → slot_loop fuel keep step day_end cursor ≡ some l
      → In s l
      → IsGridSlot keep step day_end cursor s
  unfolding slot_loop
  slot_loop_sound zero cursor l s h m = ground arith
  slot_loop_sound (suc fuel) cursor l s h m = elim (Bool-cases (leb (cursor + step) day_end)) [
    | inr past ↦ ground arith
    | inl more ↦
        (let (r, e, pushed) =
            push_if-In (keep cursor (cursor + step)) cursor (cursor + step)
              (slot_loop fuel keep step day_end (cursor + step)) l (ground arith) in
          elim ((pushed s).0 m) [
            | inl (kept, same) ↦ (0, ground arith, ground arith, ground arith, ground arith)
            | inr later ↦ next_grid cursor s (slot_loop_sound fuel (cursor + step) r s e later)
          ])
  ]

  pub slot_loop_complete :
      (fuel cursor : ℕ) (l : List Slot) (s : Slot)
      → slot_loop fuel keep step day_end cursor ≡ some l
      → IsGridSlot keep step day_end cursor s
      → In s l
  unfolding slot_loop
  slot_loop_complete zero cursor l s h g = ground arith
  slot_loop_complete (suc fuel) cursor l s h (zero, a, b, c, d) =
      let (r, e, pushed) =
        push_if-In (keep cursor (cursor + step)) cursor (cursor + step)
          (slot_loop fuel keep step day_end (cursor + step)) l (ground arith) in
      (pushed s).1 (inl (ground arith, ground arith))
  slot_loop_complete (suc fuel) cursor l s h (suc k, a, b, c, d) =
      let (r, e, pushed) =
        push_if-In (keep cursor (cursor + step)) cursor (cursor + step)
          (slot_loop fuel keep step day_end (cursor + step)) l (ground arith) in
      (pushed s).1
        (inr (slot_loop_complete fuel (cursor + step) r s e (k, omega (arith, a), b, c, d)))

  push_if-some :
      (c : Bool) (start end : ℕ) (r : List Slot)
      → (l : List Slot) × (push_if c start end (some r) ≡ some l)
  push_if-some true start end r = (record { start_at_utc = start; end_at_utc = end } ∷ r, refl)
  push_if-some false start end r = (r, refl)

  -- More fuel than the loop has rounds left.
  pub slot_loop_ends :
      (fuel cursor : ℕ)
      → 0 < step
      → day_end < cursor + step + fuel * step
      → (l : List Slot) × (slot_loop (suc fuel) keep step day_end cursor ≡ some l)
  unfolding slot_loop
  slot_loop_ends zero cursor pos enough = ([], ground arith)
  slot_loop_ends (suc fuel) cursor pos enough = elim (Bool-cases (leb (cursor + step) day_end)) [
    | inr past ↦ ([], ground arith)
    | inl more ↦
        (let (l, e) = slot_loop_ends fuel (cursor + step) pos (omega (arith, enough)) in
          let (l', e') = push_if-some (keep cursor (cursor + step)) cursor (cursor + step) l in
          (l', ground arith))
  ]

-- One step more than the division gives is past the end.
rounds_suffice : (a b step : ℕ) → 0 < step → b < a + step + (b - a) / step * step
rounds_suffice a b step pos = omega arith

pub ↔-trans : {A B C : Type 0} → A ↔ B → B ↔ C → A ↔ C
↔-trans f g = (λ a. g.0 (f.0 a), λ c. f.1 (g.1 c))

-- The slots of a loop that ends; one with a negative length, which ends at once, has none.
pub run_loop_exact :
    (keep : ℕ → ℕ → Bool) (m : Minutes) (a b : ℕ) (l : List Slot) (s : Slot)
    → run_loop keep m a b ≡ some l
    → In s l ↔ IsGridSlot keep (minutes (count_of m)) b a s
unfolding run_loop
run_loop_exact keep (whole n) a b l s run = (
  slot_loop_sound keep (minutes n) b _ a l s run,
  slot_loop_complete keep (minutes n) b _ a l s run,
)
run_loop_exact keep (negative n) a b [] s run =
    (λ m. absurd m, λ (k, starts, ends, over, kept). ground arith)
run_loop_exact keep (negative n) a b (x ∷ l) s run = absurd (ground arith)

pub run_loop_ends :
    (keep : ℕ → ℕ → Bool) (m : Minutes) (a b : ℕ)
    → 0 < count_of m
    → (l : List Slot) × (run_loop keep m a b ≡ some l)
unfolding run_loop
run_loop_ends keep (whole n) a b pos =
    slot_loop_ends keep (minutes n) b ((b - a) / minutes n) a (ground arith)
      (rounds_suffice a b (minutes n) (ground arith))
run_loop_ends keep (negative n) a b pos = absurd (ground arith)
