-- ===== src/Graph/Hash/Laws.antt =====
-- About `hash` (apps/api/src/clients/graph.client.ts).
use booking_zoom_connect.Prelude.{
  ℕ, List, [], ◌∷◌, ◌+◌, ◌*◌, ◌%◌, ◌^◌, ◌<◌, ◌≤◌, ◌≡◌, refl, arith, ◌∙◌, ap,
}
use booking_zoom_connect.Graph.Hash.{word, hash_step, hash_loop, hash, abs_word}

-- The polynomial in 31, without any wrap.
abbrev pub polynomial : ℕ → List ℕ → ℕ
polynomial h [] = h
polynomial h (c ∷ s) = polynomial (31 * h + c) s

hash_step_mod : (x c : ℕ) → hash_step (x % word) c ≡ (31 * x + c) % word
unfolding hash_step
hash_step_mod x c = omega arith

hash_loop_mod : (x : ℕ) (s : List ℕ) → hash_loop (x % word) s ≡ polynomial x s % word
unfolding hash_loop
hash_loop_mod x [] = refl
hash_loop_mod x (c ∷ s) = ap (λ h. hash_loop h s) (hash_step_mod x c) ∙ hash_loop_mod (31 * x + c) s

abs_word-le : (h : ℕ) → h < word → abs_word h ≤ 2 ^ 31
abs_word-le h b = ground arith

-- The hash of a text is the polynomial in 31 of its character codes, wrapped once at the end, without
-- its sign; and it is at most 2 ^ 31.
pub hash-polynomial : (s : List ℕ) → (hash s ≡ abs_word (polynomial 0 s % word)) × (hash s ≤ 2 ^ 31)
unfolding hash
hash-polynomial s =
    let e = hash_loop_mod 0 s in
    (ap abs_word e, rw e (abs_word-le (polynomial 0 s % word) (omega arith)))
