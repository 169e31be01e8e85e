-- ===== src/Prelude/Rows.antt =====
-- The rows of a table as a list: the first row that a test accepts, all such rows, an update of the
-- rows that a test accepts, and how a row of the result comes from a row of the table.
use mathlib.Core.Path.{◌≡◌, refl}
use mathlib.Core.Logic.{◌⊎◌, inl, inr}
use mathlib.Core.Bool.{Bool, true, false}
use mathlib.Core.Option.{Option, none, some}
use mathlib.Core.List.{List, [], ◌∷◌, ◌++◌}
use native.Mathlib.Omega.{arith}
use Prim.Native.Nat.{ℕ, zero, suc}
use booking_zoom_connect.Prelude.Lists.{take}
use booking_zoom_connect.Prelude.Tests.{if◌then◌else◌, Bool-cases}

-- The row is one of the table's. Rows are records of plain data, so one level serves.
abbrev pub In : {A : Type 0} → A → List A → Type 0
In a [] = ⊥
In a (x ∷ xs) = (a ≡ x) ⊎ In a xs

module _ {A : Type 0} where
  -- `findFirst`: the first row of the table that the test accepts.
  unfoldable pub find_first : (A → Bool) → List A → Option A
  find_first p [] = none
  find_first p (x ∷ xs) = if p x then some x else find_first p xs

  -- `findMany` without an order or a limit.
  unfoldable pub find_many : (A → Bool) → List A → List A
  find_many p [] = []
  find_many p (x ∷ xs) = if p x then x ∷ find_many p xs else find_many p xs

  -- `updateMany`: rewrites each row that the test accepts.
  unfoldable pub update_many : (A → Bool) → (A → A) → List A → List A
  update_many p f [] = []
  update_many p f (x ∷ xs) = (if p x then f x else x) ∷ update_many p f xs

  pub find_first-here :
      (p : A → Bool) (xs : List A) (a : A) → p a ≡ true → find_first p (a ∷ xs) ≡ some a
  unfolding find_first
  find_first-here p xs a h = rw h

  pub find_first-In : (p : A → Bool) (xs : List A) (a : A) → find_first p xs ≡ some a → In a xs
  unfolding find_first
  find_first-In p [] a h = ground arith
  find_first-In p (x ∷ xs) a h = ground (arith, find_first-In p xs a)

  pub find_first-test : (p : A → Bool) (xs : List A) (a : A) → find_first p xs ≡ some a → p a ≡ true
  unfolding find_first
  find_first-test p [] a h = ground arith
  find_first-test p (x ∷ xs) a h = ground (arith, find_first-test p xs a)

  -- A search that finds nothing has refused every row.
  pub find_first-none :
      (p : A → Bool) (xs : List A) (a : A) → find_first p xs ≡ none → In a xs → p a ≡ false
  unfolding find_first
  find_first-none p [] a h m = absurd m
  find_first-none p (x ∷ xs) a h m = ground (arith, find_first-none p xs a)

  pub find_many-In : (p : A → Bool) (xs : List A) (a : A) → In a (find_many p xs) → In a xs
  unfolding find_many
  find_many-In p [] a m = m
  find_many-In p (x ∷ xs) a m = ground (arith, find_many-In p xs a)

  pub find_many-test : (p : A → Bool) (xs : List A) (a : A) → In a (find_many p xs) → p a ≡ true
  unfolding find_many
  find_many-test p [] a m = absurd m
  find_many-test p (x ∷ xs) a m = ground (arith, find_many-test p xs a)

  pub In-find_many :
      (p : A → Bool) (xs : List A) (a : A) → In a xs → p a ≡ true → In a (find_many p xs)
  unfolding find_many
  In-find_many p [] a m h = m
  In-find_many p (x ∷ xs) a m h = ground (arith, In-find_many p xs a)

  -- A row after an update is a row that was passed over, or the rewriting of one that was not.
  pub In-update_many :
      (p : A → Bool) (f : A → A) (xs : List A) (a : A)
      → In a (update_many p f xs)
      → (In a xs × (p a ≡ false)) ⊎ ((b : A) × In b xs × (p b ≡ true) × (a ≡ f b))
  unfolding update_many
  In-update_many p f [] a m = absurd m
  In-update_many p f (x ∷ xs) a (inl e) = elim (Bool-cases (p x)) [
    | inl yes' ↦ inr (x, inl refl, yes', ground arith)
    | inr no' ↦ inl (ground arith, ground arith)
  ]
  In-update_many p f (x ∷ xs) a (inr m) = elim (In-update_many p f xs a m) [
    | inl (old, kept) ↦ inl (inr old, kept)
    | inr (b, old, hit, e) ↦ inr (b, inr old, hit, e)
  ]

  pub update_many-In :
      (p : A → Bool) (f : A → A) (xs : List A) (a : A)
      → In a xs
      → p a ≡ true
      → In (f a) (update_many p f xs)
  unfolding update_many
  update_many-In p f [] a m h = m
  update_many-In p f (x ∷ xs) a (inl e) h = inl (ground arith)
  update_many-In p f (x ∷ xs) a (inr m) h = inr (update_many-In p f xs a m h)

  pub update_many-In_kept :
      (p : A → Bool) (f : A → A) (xs : List A) (a : A)
      → In a xs
      → p a ≡ false
      → In a (update_many p f xs)
  unfolding update_many
  update_many-In_kept p f [] a m h = m
  update_many-In_kept p f (x ∷ xs) a (inl e) h = inl (ground arith)
  update_many-In_kept p f (x ∷ xs) a (inr m) h = inr (update_many-In_kept p f xs a m h)

  pub In-append : (a : A) (xs ys : List A) → In a (xs ++ ys) → In a xs ⊎ In a ys
  In-append a [] ys m = inr m
  In-append a (x ∷ xs) ys (inl e) = inl (inl e)
  In-append a (x ∷ xs) ys (inr m) = elim (In-append a xs ys m) [
    | inl l ↦ inl (inr l)
    | inr r ↦ inr r
  ]

  pub take-In : (n : ℕ) (xs : List A) (a : A) → In a (take n xs) → In a xs
  take-In zero xs a m = absurd m
  take-In (suc n) [] a m = m
  take-In (suc n) (x ∷ xs) a (inl e) = inl e
  take-In (suc n) (x ∷ xs) a (inr m) = inr (take-In n xs a m)

  -- A search that found nothing finds the one row that an update rewrites.
  pub find_first-update_many :
      (p q : A → Bool) (f : A → A) (xs : List A) (a : A)
      → find_first q xs ≡ none
      → In a xs
      → p a ≡ true
      → ((x : A) → In x xs → p x ≡ true → x ≡ a)
      → q (f a) ≡ true
      → find_first q (update_many p f xs) ≡ some (f a)
  unfolding find_first update_many
  find_first-update_many p q f [] a nothing m hit one good = absurd m
  find_first-update_many p q f (x ∷ xs) a nothing m hit one good = elim (Bool-cases (p x)) [
    | inl here ↦ ground (arith, one x (inl refl) here)
    | inr passed ↦ elim m [
      | inl e ↦ absurd (ground arith)
      | inr later ↦ ground (
        arith,
        find_first-update_many p q f xs a (ground arith) later hit (λ y my. one y (inr my)) good,
      )
    ]
  ]
