-- ===== src/Rage/Buffer/Words.antt =====
-- A field of the stream as a number: what the bits from a position on stand for, most significant
-- first.
use native.Mathlib.Nat.{pow-suc, one-le-pow, mod-eq_of_lt, pow-le-pow_right}
use baston.Prelude.{ℕ, zero, suc, ◌+◌, ◌*◌, ◌/◌, ◌%◌, ◌^◌, ◌≤◌, ◌<◌, ◌≡◌, arith, List, ap, bit_or}
use baston.Prelude.Bits.{bit_or_sum, mod_split}
use baston.Rage.Buffer.{bit_at, read_loop}
use baston.Rage.Buffer.BitLaws.{bit_at-lt}

-- The `n` bits of `bytes` from `bit` on, as a number.
unfoldable pub word : List ℕ → ℕ → ℕ → ℕ
word bytes bit zero = 0
word bytes bit (suc n) = bit_at bytes bit * 2 ^ n + word bytes (bit + 1) n

pub mod_digit : (v n : ℕ) → v % 2 ^ suc n ≡ v / 2 ^ n % 2 * 2 ^ n + v % 2 ^ n
mod_digit v n =
    rw (pow-suc 2 n) (mod_split v (2 ^ n) 2 (one-le-pow n 2 (omega arith)) (omega arith))

pub word-lt : (bytes : List ℕ) (bit n : ℕ) → word bytes bit n < 2 ^ n
unfolding word
word-lt bytes bit zero = omega arith
word-lt bytes bit (suc n) =
    grind (arith, word-lt bytes (bit + 1) n, bit_at-lt bytes bit, pow-suc 2 n)

pub pow-le : (k : ℕ) → k ≤ 32 → 2 ^ k ≤ 2 ^ 32
pow-le k h = pow-le-pow_right {n = 2} (omega arith) h

shift_in :
    (value b : ℕ) → value * 2 < 2 ^ 32 → b < 2 → bit_or (value * 2 % 2 ^ 32) b ≡ value * 2 + b
shift_in value b small hb = rw (mod-eq_of_lt small) (bit_or_sum 1 value b hb)

-- The accumulator of the reading loop never loses a bit while at most 32 are read.
pub read_loop-word :
    (bytes : List ℕ) (n bit value k : ℕ)
    → value < 2 ^ k
    → k + n ≤ 32
    → read_loop bytes n bit value ≡ value * 2 ^ n + word bytes bit n
unfolding read_loop word
read_loop-word bytes zero bit value k small fits = omega arith
read_loop-word bytes (suc n) bit value k small fits =
    let small' : value * 2 < 2 ^ 32 = omega (arith, pow-le (suc k) (omega arith), pow-suc 2 k) in
    let step = shift_in value (bit_at bytes bit) small' (bit_at-lt bytes bit) in
    rw step (
      omega (
        arith,
        pow-suc 2 n,
        ap (λ (t : ℕ). value * t) (pow-suc 2 n),
        read_loop-word bytes n (bit + 1) (value * 2 + bit_at bytes bit) (suc k)
            (omega (arith, pow-suc 2 k, bit_at-lt bytes bit)) (omega arith),
      ))
