-- ===== src/Prelude/Texts.antt =====
-- Texts that the code takes apart, as lists of character codes.
use Prim.Native.Nat.{ℕ}
use Prim.Native.Char.{code}
use Prim.Native.String.{String, [], ◌∷◌}
use mathlib.Core.List.{List, [] as []ᴸ, ◌∷◌ as ◌∷ᴸ◌}
use mathlib.Core.Bool.{Bool, true, false, ◌&&◌}
use mathlib.Core.Path.{◌≡◌, refl}
use native.Mathlib.Omega.{arith}
use booking_zoom_connect.Prelude.Tests.{◌==◌}

abbrev pub codes : String → List ℕ
codes [] = []ᴸ
codes (c ∷ s) = code c ∷ᴸ codes s

abbrev pub list_eq : List ℕ → List ℕ → Bool
list_eq []ᴸ []ᴸ = true
list_eq (c ∷ᴸ s) (d ∷ᴸ t) = c == d && list_eq s t
list_eq _ _ = false

pub list_eq_sound : (s t : List ℕ) → list_eq s t ≡ true → s ≡ t
list_eq_sound []ᴸ []ᴸ h = refl
list_eq_sound []ᴸ (d ∷ᴸ t) h = ground arith
list_eq_sound (c ∷ᴸ s) []ᴸ h = ground arith
list_eq_sound (c ∷ᴸ s) (d ∷ᴸ t) h = ground (arith, list_eq_sound s t)

pub list_eq_refl : (s : List ℕ) → list_eq s s ≡ true
list_eq_refl []ᴸ = refl
list_eq_refl (c ∷ᴸ s) = ground (arith, list_eq_refl s)
