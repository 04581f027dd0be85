-- ===== src/Prelude/Xor.antt =====
-- `^` on numbers and on byte strings, the latter as `xor` of crates/baston-voice/src/crypto.rs:
-- masking twice with the same bits gives the masked back.
use Prim.Native.Nat.{ℕ, zero, suc, ◌+◌, ◌/◌, ◌%◌, ◌≤◌, ◌<◌, bit_xor, differ}
use mathlib.Core.Path.{◌≡◌, refl, ap, ◌∙◌}
use mathlib.Core.List.{List, [], ◌∷◌, ◌++◌}
use native.Mathlib.Omega.{arith}
use baston.Prelude.Lists.{length, take, drop}
use baston.Prelude.Bits.{bit_xor_digit}

differ_bit : (p q : ℕ) → p < 2 → q < 2 → differ p q < 2
differ_bit zero q h k = k
differ_bit (suc zero) zero h k = omega arith
differ_bit (suc zero) (suc q) h k = omega arith
differ_bit (suc (suc p)) q h k = absurd (omega arith)

differ_twice : (p q : ℕ) → p < 2 → q < 2 → differ p (differ p q) ≡ q
differ_twice zero q h k = refl
differ_twice (suc zero) zero h k = refl
differ_twice (suc zero) (suc zero) h k = refl
differ_twice (suc zero) (suc (suc q)) h k = absurd (omega arith)
differ_twice (suc (suc p)) q h k = absurd (omega arith)

xor_twice_below : (n a b : ℕ) → a ≤ n → b ≤ n → bit_xor a (bit_xor a b) ≡ b
xor_twice_below zero zero zero h k = refl
xor_twice_below zero zero (suc b) h k = absurd (omega arith)
xor_twice_below zero (suc a) b h k = absurd (omega arith)
xor_twice_below (suc n) a b h k =
    let x = bit_xor a b in
    let low = differ_bit (a % 2) (b % 2) (omega arith) (omega arith) in
    let e : x / 2 ≡ bit_xor (a / 2) (b / 2) = omega (arith, bit_xor_digit a b, low) in
    let f : x % 2 ≡ differ (a % 2) (b % 2) = omega (arith, bit_xor_digit a b, low) in
    bit_xor_digit a x
    ∙ rw (e, f)
        (omega (
          arith,
          xor_twice_below n (a / 2) (b / 2) (omega arith) (omega arith),
          differ_twice (a % 2) (b % 2) (omega arith) (omega arith),
        ))

bit_xor_twice : (a b : ℕ) → bit_xor a (bit_xor a b) ≡ b
bit_xor_twice a b = xor_twice_below (a + b) a b (omega arith) (omega arith)

-- Byte by byte, as far as both reach.
unfoldable pub xor : List ℕ → List ℕ → List ℕ
xor [] ys = []
xor (a ∷ xs) [] = []
xor (a ∷ xs) (b ∷ ys) = bit_xor a b ∷ xor xs ys

pub xor_twice : (xs ys : List ℕ) → length xs ≡ length ys → xor xs (xor xs ys) ≡ ys
unfolding xor
xor_twice [] [] h = refl
xor_twice [] (b ∷ ys) h = absurd (omega arith)
xor_twice (a ∷ xs) [] h = absurd (omega arith)
xor_twice (a ∷ xs) (b ∷ ys) h =
    rw (bit_xor_twice a b) (ap (λ t. b ∷ t) (xor_twice xs ys (omega arith)))

pub length-xor : (xs ys : List ℕ) → length xs ≡ length ys → length (xor xs ys) ≡ length xs
unfolding xor
length-xor [] ys h = refl
length-xor (a ∷ xs) [] h = absurd (omega arith)
length-xor (a ∷ xs) (b ∷ ys) h = ap suc (length-xor xs ys (omega arith))

-- A text that is shorter than its mask is masked as if it went on with the mask's bytes, and the
-- mask gives it back.
pub xor_twice_short :
    (pad text : List ℕ)
    → length text ≤ length pad
    → xor (take (length text) pad) (take (length text) (xor pad (text ++ drop (length text) pad)))
      ≡ text
unfolding xor
xor_twice_short pad [] h = refl
xor_twice_short [] (t ∷ ts) h = absurd (omega arith)
xor_twice_short (p ∷ ps) (t ∷ ts) h =
    rw (bit_xor_twice p t) (ap (λ u. t ∷ u) (xor_twice_short ps ts (omega arith)))
