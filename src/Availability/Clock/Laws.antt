-- ===== src/Availability/Clock/Laws.antt =====
-- About `parseHm` (apps/api/src/services/booking.service.ts).
use booking_zoom_connect.Prelude.{ℕ, ◌≡◌, some, List, [], ◌∷◌, ◌+◌, ◌/◌, ◌%◌, ◌<◌, arith}
use booking_zoom_connect.Availability.Clock.{parse_hm}

-- The time of day as two digits, a colon and two digits.
abbrev pub show_hm : ℕ → List ℕ
show_hm m =
    (b'0' + m / 60 / 10)
    ∷ (b'0' + m / 60 % 10)
    ∷ b':'
    ∷ (b'0' + m % 60 / 10)
    ∷ (b'0' + m % 60 % 10)
    ∷ []

parse_hm-lt : (s : List ℕ) (n : ℕ) → parse_hm s ≡ some n → n < 1440
unfolding parse_hm
parse_hm-lt (a ∷ c ∷ d ∷ e ∷ []) n h = ground arith
parse_hm-lt (a ∷ b ∷ c ∷ d ∷ e ∷ []) n h = ground arith
parse_hm-lt [] n h = ground arith
parse_hm-lt (a ∷ []) n h = ground arith
parse_hm-lt (a ∷ b ∷ []) n h = ground arith
parse_hm-lt (a ∷ b ∷ c ∷ []) n h = ground arith
parse_hm-lt (a ∷ b ∷ c ∷ d ∷ e ∷ f ∷ s) n h = ground arith

parse_hm-show : (m : ℕ) → m < 1440 → parse_hm (show_hm m) ≡ some m
unfolding parse_hm
parse_hm-show m h = ground arith

-- Every time of day, written with two digits for the hour, is read back; and what is read, of any
-- text, is a time of day.
pub parse_hm-show_hm :
    (m : ℕ) (s : List ℕ) (n : ℕ)
    → m < 1440
    → parse_hm s ≡ some n
    → (parse_hm (show_hm m) ≡ some m) × (n < 1440)
parse_hm-show_hm m s n h e = (parse_hm-show m h, parse_hm-lt s n e)
