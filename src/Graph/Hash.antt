-- ===== src/Graph/Hash.antt =====
-- `hash` of apps/api/src/clients/graph.client.ts and of clients/zoom.client.ts. A 32-bit integer of
-- JavaScript stands as its remainder modulo 2 ^ 32, so that taking away is adding the complement.
pub mod Laws
use booking_zoom_connect.Prelude.{ℕ, List, [], ◌∷◌, ◌+◌, ◌-◌, ◌*◌, ◌^◌, ◌%◌, ltb, if◌then◌else◌}

abbrev pub word : ℕ
word = 2 ^ 32

-- `h << 5`
abbrev pub shift_left_5 : ℕ → ℕ
shift_left_5 h = h * 32 % word

-- `h = (h << 5) - h + c; h |= 0`
unfoldable pub hash_step : ℕ → ℕ → ℕ
hash_step h c = (shift_left_5 h + (word - h) + c) % word

unfoldable pub hash_loop : ℕ → List ℕ → ℕ
hash_loop h [] = h
hash_loop h (c ∷ s) = hash_loop (hash_step h c) s

-- `Math.abs`, of the signed integer that the remainder stands for.
abbrev pub abs_word : ℕ → ℕ
abs_word h = if ltb h (2 ^ 31) then h else word - h

unfoldable pub hash : List ℕ → ℕ
hash s = abs_word (hash_loop 0 s)
