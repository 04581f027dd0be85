-- ===== src/Voice/Crypto/Blocks.antt =====
-- The operations on blocks keep their 16 bytes.
use baston.Prelude.{
  ℕ, suc, ◌*◌, ◌/◌, ◌%◌, ◌^◌, ◌≡◌, refl, sym, ap, ◌∙◌, arith, List, [], ◌∷◌, length, get_or,
  replicate, length-set, length-append, inl, inr, Bool-cases, ◌==◌,
}
use baston.Prelude.Bytes.{to_be, length-to_be}
use baston.Prelude.Xor.{length-xor}
use baston.Voice.Crypto.{shift_left, times2, times3, length_block}

length-shift_left : (bs : List ℕ) → length (shift_left bs) ≡ length bs
unfolding shift_left
length-shift_left [] = refl
length-shift_left (b ∷ []) = refl
length-shift_left (b ∷ c ∷ bs) = ap suc (length-shift_left (c ∷ bs))

pub length-times2 : (b : List ℕ) → length (times2 b) ≡ length b
unfolding times2
length-times2 b = elim (Bool-cases (get_or b 0 0 / 2 ^ 7 == 1)) [
  | inl carry ↦ rw (carry, times2) (length-set (shift_left b) 15 _ ∙ length-shift_left b)
  | inr none_out ↦ rw (none_out, times2) (length-shift_left b)
]

pub length-times3 : (b : List ℕ) → length (times3 b) ≡ length b
unfolding times3
length-times3 b = length-xor b (times2 b) (sym (length-times2 b))

pub length-length_block : (n : ℕ) → length (length_block n) ≡ 16
unfolding length_block
length-length_block n =
    length-append (replicate 8 0) (to_be 8 (n * 8 % 2 ^ 64))
    ∙ omega (arith, length-to_be 8 (n * 8 % 2 ^ 64))
