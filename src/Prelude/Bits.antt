-- ===== src/Prelude/Bits.antt =====
-- `&`, `|` and `^` at variables, from the binary digits that the native operations stand for.
use Prim.Native.Nat.{
  differ, min, max, digits, bitwise, bit_and-bitwise, bit_or-bitwise, bit_xor-bitwise,
}
use Prim.Native.Nat.{ℕ, zero, suc, ◌+◌, ◌-◌, ◌*◌, ◌/◌, ◌%◌, ◌^◌, ◌≤◌, ◌<◌, bit_and, bit_or, bit_xor}
use mathlib.Core.Path.{◌≡◌, refl, ap, ◌∙◌}
use mathlib.Core.Bool.{Bool, true, ◌&&◌}
use native.Mathlib.Nat.{
  pow-suc, one-le-pow, mod-lt, div-add-mod, add-mul-mod_self_left, mod-eq_of_lt,
}
use native.Mathlib.Omega.{arith}
use native.Mathlib.Decide.{ℕ_discrete}

-- Any two fuels that cover the first operand give the same digits.
covering_fuels :
    (ends : ℕ → ℕ) (digit : ℕ → ℕ → ℕ) (x y fuel spare : ℕ)
    → x ≤ fuel
    → x ≤ spare
    → digits ends digit fuel x y ≡ digits ends digit spare x y
covering_fuels ends digit zero y zero zero enough ample = refl
covering_fuels ends digit zero y zero (suc spare) enough ample = refl
covering_fuels ends digit zero y (suc fuel) zero enough ample = refl
covering_fuels ends digit zero y (suc fuel) (suc spare) enough ample = refl
covering_fuels ends digit (suc x) y zero spare enough ample = absurd (omega arith)
covering_fuels ends digit (suc x) y (suc fuel) zero enough ample = absurd (omega arith)
covering_fuels ends digit (suc x) y (suc fuel) (suc spare) enough ample =
    let halved =
      covering_fuels ends digit (suc x / 2) (y / 2) fuel spare (omega arith) (omega arith) in
    ap (λ t. t * 2 + digit (suc x % 2) (y % 2)) halved

lowest_digit :
    (ends : ℕ → ℕ) (digit : ℕ → ℕ → ℕ) (x y : ℕ)
    → bitwise ends digit (suc x) y
      ≡ bitwise ends digit (suc x / 2) (y / 2) * 2 + digit (suc x % 2) (y % 2)
lowest_digit ends digit x y =
    let halved =
      covering_fuels ends digit (suc x / 2) (y / 2) x (suc x / 2) (omega arith) (omega arith) in
    ap (λ t. t * 2 + digit (suc x % 2) (y % 2)) halved

pub bit_or_digit : (a b : ℕ) → bit_or a b ≡ bit_or (a / 2) (b / 2) * 2 + max (a % 2) (b % 2)
bit_or_digit zero b = simp bit_or-bitwise (omega arith)
bit_or_digit (suc a) b = simp bit_or-bitwise (lowest_digit (λ y. y) max a b)

pub bit_and_digit : (a b : ℕ) → bit_and a b ≡ bit_and (a / 2) (b / 2) * 2 + min (a % 2) (b % 2)
bit_and_digit zero b = simp bit_and-bitwise (omega arith)
bit_and_digit (suc a) b = simp bit_and-bitwise (lowest_digit (λ y. 0) min a b)

bit_or-zero_below : (n a : ℕ) → a ≤ n → bit_or a 0 ≡ a
bit_or-zero_below n zero h = refl
bit_or-zero_below zero (suc a) h = absurd (omega arith)
bit_or-zero_below (suc n) (suc a) h =
    omega (arith, bit_or_digit (suc a) 0, bit_or-zero_below n (suc a / 2) (omega arith))

pub bit_or-zero : (a : ℕ) → bit_or a 0 ≡ a
bit_or-zero a = bit_or-zero_below a a (omega arith)

bit_and-zero_below : (n a : ℕ) → a ≤ n → bit_and a 0 ≡ 0
bit_and-zero_below n zero h = refl
bit_and-zero_below zero (suc a) h = absurd (omega arith)
bit_and-zero_below (suc n) (suc a) h =
    omega (arith, bit_and_digit (suc a) 0, bit_and-zero_below n (suc a / 2) (omega arith))

pub bit_and-zero : (a : ℕ) → bit_and a 0 ≡ 0
bit_and-zero a = bit_and-zero_below a a (omega arith)

pub bit_and-one : (a : ℕ) → bit_and a 1 ≡ a % 2
bit_and-one a = omega (arith, bit_and_digit a 1, bit_and-zero (a / 2))

mul-pow_suc : (q k : ℕ) → q * 2 ^ suc k ≡ 2 * (q * 2 ^ k)
mul-pow_suc q k = omega (arith, ap (λ (t : ℕ). q * t) (pow-suc 2 k))

-- `(q << k) | r` is a sum where `r` fits in `k` bits.
pub bit_or_sum : (k q r : ℕ) → r < 2 ^ k → bit_or (q * 2 ^ k) r ≡ q * 2 ^ k + r
bit_or_sum zero q r fits = ground (arith, bit_or-zero q)
bit_or_sum (suc k) q r fits =
    ground
      (arith, bit_or_digit (q * 2 ^ suc k) r, mul-pow_suc q k, pow-suc 2 k, bit_or_sum k q (r / 2))

-- Division by `p * q` in two steps.
pub mod_split : (v p q : ℕ) → 0 < p → 0 < q → v % (p * q) ≡ v / p % q * p + v % p
mod_split v p q pp pq =
    let top = v / p in
    let low = top % q * p + v % p in
    let small : low < p * q = grind (arith, mod-lt v pp, mod-lt top pq) in
    let split : v ≡ low + p * q * (top / q) =
      omega (arith, div-add-mod v p, ap (λ (t : ℕ). p * t) (div-add-mod top q)) in
    ap (λ t. t % (p * q)) split ∙ add-mul-mod_self_left low (p * q) (top / q) ∙ mod-eq_of_lt small

-- The lowest digit and the rest of a remainder.
mod-low_digit : (a p : ℕ) → 0 < p → a % (p * 2) ≡ a / 2 % p * 2 + a % 2
mod-low_digit a p pos =
    let high = a / 2 in
    let low = high % p * 2 + a % 2 in
    let small : low < p * 2 = omega (arith, mod-lt high pos) in
    let split : a ≡ low + p * 2 * (high / p) =
      omega (arith, ap (λ (t : ℕ). t * 2) (div-add-mod high p)) in
    ap (λ t. t % (p * 2)) split ∙ add-mul-mod_self_left low (p * 2) (high / p) ∙ mod-eq_of_lt small

-- `&` with `n` ones keeps the low `n` bits.
pub bit_and-ones : (n a : ℕ) → bit_and a (2 ^ n - 1) ≡ a % 2 ^ n
bit_and-ones zero a = omega (arith, bit_and-zero a)
bit_and-ones (suc n) a =
    let low : (2 ^ suc n - 1) % 2 ≡ 1 = omega (arith, pow-suc 2 n, one-le-pow n 2) in
    let high : (2 ^ suc n - 1) / 2 ≡ 2 ^ n - 1 = omega (arith, pow-suc 2 n, one-le-pow n 2) in
    let step : bit_and a (2 ^ suc n - 1) ≡ bit_and (a / 2) (2 ^ n - 1) * 2 + a % 2 =
      bit_and_digit a (2 ^ suc n - 1) ∙ rw (low, high) (omega arith) in
    let digit : a % 2 ^ suc n ≡ a / 2 % 2 ^ n * 2 + a % 2 =
      rw (pow-suc 2 n) (mod-low_digit a (2 ^ n) (one-le-pow n 2 (omega arith))) in
    omega (arith, step, digit, bit_and-ones n (a / 2))

zero-bit_or : (b : ℕ) → bit_or 0 b ≡ b
zero-bit_or b = simp bit_or-bitwise refl

pub bit_or_sum_low : (k q r : ℕ) → r < 2 ^ k → bit_or r (q * 2 ^ k) ≡ q * 2 ^ k + r
bit_or_sum_low zero q r fits = ground (arith, zero-bit_or q)
bit_or_sum_low (suc k) q r fits = ground (
  arith,
  bit_or_digit r (q * 2 ^ suc k),
  mul-pow_suc q k,
  pow-suc 2 k,
  bit_or_sum_low k q (r / 2),
)

pub bit_xor_digit : (a b : ℕ) → bit_xor a b ≡ bit_xor (a / 2) (b / 2) * 2 + differ (a % 2) (b % 2)
bit_xor_digit zero b = simp bit_xor-bitwise (omega arith)
bit_xor_digit (suc a) b = simp bit_xor-bitwise (lowest_digit (λ y. y) differ a b)

differ-zero : (r : ℕ) → differ r 0 ≡ r
differ-zero zero = refl
differ-zero (suc r) = refl

differ-one : (r : ℕ) → r < 2 → differ r 1 ≡ 1 - r
differ-one zero h = refl
differ-one (suc zero) h = refl
differ-one (suc (suc r)) h = absurd (omega arith)

bit_xor-zero_below : (n a : ℕ) → a ≤ n → bit_xor a 0 ≡ a
bit_xor-zero_below n zero h = refl
bit_xor-zero_below zero (suc a) h = absurd (omega arith)
bit_xor-zero_below (suc n) (suc a) h = omega (
  arith,
  bit_xor_digit (suc a) 0,
  differ-zero (suc a % 2),
  bit_xor-zero_below n (suc a / 2) (omega arith),
)

pub bit_xor-zero : (a : ℕ) → bit_xor a 0 ≡ a
bit_xor-zero a = bit_xor-zero_below a a (omega arith)

-- `^` with `n` ones is the complement in `n` bits.
pub bit_xor-ones : (n a : ℕ) → a < 2 ^ n → bit_xor a (2 ^ n - 1) ≡ 2 ^ n - 1 - a
bit_xor-ones zero a h = omega (arith, bit_xor-zero a)
bit_xor-ones (suc n) a h =
    let low : (2 ^ suc n - 1) % 2 ≡ 1 = omega (arith, pow-suc 2 n, one-le-pow n 2) in
    let high : (2 ^ suc n - 1) / 2 ≡ 2 ^ n - 1 = omega (arith, pow-suc 2 n, one-le-pow n 2) in
    let step : bit_xor a (2 ^ suc n - 1) ≡ bit_xor (a / 2) (2 ^ n - 1) * 2 + (1 - a % 2) =
      bit_xor_digit a (2 ^ suc n - 1)
      ∙ rw (low, high)
          (ap (λ t. bit_xor (a / 2) (2 ^ n - 1) * 2 + t) (differ-one (a % 2) (omega arith))) in
    omega (arith, step, pow-suc 2 n, bit_xor-ones n (a / 2) (omega (arith, pow-suc 2 n)))

-- A test on every number below a bound, by evaluation.
unfoldable pub every : ℕ → (ℕ → Bool) → Bool
every zero test = true
every (suc top) test = let below = every top test in test top && below

pub every-holds :
    (bound : ℕ) (test : ℕ → Bool) (k : ℕ) → every bound test ≡ true → k < bound → test k ≡ true
unfolding every
every-holds zero test k table inside = absurd (omega arith)
every-holds (suc top) test k table inside = elim (ℕ_discrete k top) [
  | yes here ↦ rw here (ground arith)
  | no below ↦ every-holds top test k (ground arith) (omega arith)
]
