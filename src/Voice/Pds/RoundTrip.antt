-- ===== src/Voice/Pds/RoundTrip.antt =====
-- `read_u64` takes back what `write_u64` appends.
use native.Mathlib.Nat.{pow-suc, pow-le-pow_right, mod-eq_of_lt, one-le-pow}
use baston.Prelude.Bytes.{to_be, length-to_be}
use baston.Prelude.Bits.{bit_and-ones, bit_or_sum, mod_split}
use baston.Prelude.{
  ap, ◌∙◌, ℕ, zero, suc, ◌+◌, ◌*◌, ◌/◌, ◌%◌, ◌^◌, ◌≤◌, ◌<◌, ◌≡◌, arith, some, List, [], ◌∷◌, ◌++◌,
  length, ltb, Bool-cases, inl, inr, bit_and, bit_or,
}
use baston.Voice.Pds.{
  advance, next_byte, be_loop, two_bytes, three_bytes, four_bytes, read_from, read_u64, write_u64,
}
use baston.Voice.Pds.Masks.{
  read_behind_one, read_behind_two, read_behind_three, read_behind_four, read_behind_five,
  read_behind_nine,
}

two_bytes_lem :
    (hi lo pos : ℕ) (rest : List ℕ)
    → hi < 2 ^ 6
    → lo < 2 ^ 8
    → two_bytes (bit_or 0x80 hi) (advance (lo ∷ rest) pos)
      ≡ some (hi * 256 + lo, advance rest (pos + 1))
unfolding two_bytes next_byte
two_bytes_lem hi lo pos rest h l =
    ground (arith, bit_or_sum 6 2 hi h, bit_and-ones 6 (128 + hi), bit_or_sum 8 hi lo l)

three_bytes_lem :
    (b0 b1 b2 pos : ℕ) (rest : List ℕ)
    → b0 < 2 ^ 5
    → b1 < 2 ^ 8
    → b2 < 2 ^ 8
    → three_bytes (bit_or 0xC0 b0) (advance (b1 ∷ b2 ∷ rest) pos)
      ≡ some (b0 * 2 ^ 16 + b1 * 2 ^ 8 + b2, advance rest (pos + 1 + 1))
unfolding three_bytes next_byte
three_bytes_lem b0 b1 b2 pos rest h0 h1 h2 = ground (
  arith,
  bit_or_sum 5 6 b0 h0,
  bit_and-ones 5 (192 + b0),
  bit_or_sum 16 b0 (b1 * 2 ^ 8),
  bit_or_sum 8 (b0 * 2 ^ 8 + b1) b2 h2,
)

four_bytes_lem :
    (b0 b1 b2 b3 pos : ℕ) (rest : List ℕ)
    → b0 < 2 ^ 4
    → b1 < 2 ^ 8
    → b2 < 2 ^ 8
    → b3 < 2 ^ 8
    → four_bytes (bit_or 0xE0 b0) (advance (b1 ∷ b2 ∷ b3 ∷ rest) pos)
      ≡ some (b0 * 2 ^ 24 + b1 * 2 ^ 16 + b2 * 2 ^ 8 + b3, advance rest (pos + 1 + 1 + 1))
unfolding four_bytes next_byte
four_bytes_lem b0 b1 b2 b3 pos rest h0 h1 h2 h3 = ground (
  arith,
  bit_or_sum 4 14 b0 h0,
  bit_and-ones 4 (224 + b0),
  bit_or_sum 24 b0 (b1 * 2 ^ 16),
  bit_or_sum 16 (b0 * 2 ^ 8 + b1) (b2 * 2 ^ 8),
  bit_or_sum 8 (b0 * 2 ^ 16 + b1 * 2 ^ 8 + b2) b3 h3,
)

-- The accumulating loop reads a big-endian number and loses no bit of it.
be_loop-to_be :
    (n v acc k pos : ℕ) (rest : List ℕ)
    → acc < 256 ^ k
    → k + n ≤ 8
    → be_loop n acc (advance (to_be n v ++ rest) pos)
      ≡ some (acc * 256 ^ n + v % 256 ^ n, advance rest (pos + n))
unfolding be_loop next_byte to_be
be_loop-to_be zero v acc k pos rest small fits = ground arith
be_loop-to_be (suc n) v acc k pos rest small fits =
    let b = v / 256 ^ n % 256 in
    let wide : acc * 2 ^ 8 < 2 ^ 64 = omega (
      arith,
      pow-le-pow_right {n = 256} (omega arith) {i = suc k} {j = 8} (omega arith),
      pow-suc 256 k,
    ) in
    let step : bit_or (acc * 2 ^ 8 % 2 ^ 64) b ≡ acc * 256 + b =
      rw (mod-eq_of_lt wide) (bit_or_sum 8 acc b (omega arith)) in
    let digits : v % 256 ^ suc n ≡ b * 256 ^ n + v % 256 ^ n =
      rw (pow-suc 256 n)
        (mod_split v (256 ^ n) 256 (one-le-pow n 256 (omega arith)) (omega arith)) in
    rw
      (
        step,
        be_loop-to_be n v (acc * 256 + b) (suc k) (pos + 1) rest (omega (arith, pow-suc 256 k))
            (omega arith),
      )
      (ground (arith, digits, ap (λ (t : ℕ). acc * t) (pow-suc 256 n)))

-- The reader takes the bytes for the value and stops behind them, whatever follows.
abbrev Encodes : List ℕ → ℕ → Type 0
Encodes bytes v =
    (rest : List ℕ) (pos : ℕ)
    → read_u64 (advance (bytes ++ rest) pos) ≡ some (v, advance rest (pos + length bytes))

module _ (v : ℕ) where
  Encodes-one : v < 0x80 → Encodes (v % 2 ^ 8 ∷ []) v
  unfolding read_u64 read_from
  Encodes-one h rest pos =
      read_behind_one (v % 2 ^ 8) _ _ (omega arith) (omega arith) ∙ ground arith

  Encodes-two :
      0x80 ≤ v
      → v < 0x4000
      → Encodes (bit_or 0x80 (v / 2 ^ 8 % 2 ^ 8) ∷ bit_and v 0xFF % 2 ^ 8 ∷ []) v
  unfolding read_u64 read_from
  Encodes-two l h rest pos =
      let first = bit_or_sum 6 2 (v / 2 ^ 8 % 2 ^ 8) (omega arith) in
      read_behind_two _ _ _ (omega (arith, first)) (omega (arith, first)) (omega (arith, first))
      ∙ two_bytes_lem (v / 2 ^ 8 % 2 ^ 8) (bit_and v 0xFF % 2 ^ 8) (pos + 1) rest (omega arith)
          (omega arith)
      ∙ ground (arith, bit_and-ones 8 v)

  Encodes-three :
      0x4000 ≤ v
      → v < 0x20_0000
      → Encodes
          (bit_or 0xC0 (v / 2 ^ 16 % 2 ^ 8) ∷ v / 2 ^ 8 % 2 ^ 8 ∷ bit_and v 0xFF % 2 ^ 8 ∷ [])
          v
  unfolding read_u64 read_from
  Encodes-three l h rest pos =
      let first = bit_or_sum 5 6 (v / 2 ^ 16 % 2 ^ 8) (omega arith) in
      read_behind_three _ _ _ (omega (arith, first)) (omega (arith, first)) (omega (arith, first))
      ∙ three_bytes_lem (v / 2 ^ 16 % 2 ^ 8) (v / 2 ^ 8 % 2 ^ 8) (bit_and v 0xFF % 2 ^ 8) (pos + 1)
          rest (omega arith) (omega arith) (omega arith)
      ∙ ground (arith, bit_and-ones 8 v)

  Encodes-four :
      0x20_0000 ≤ v
      → v < 0x1000_0000
      → Encodes
          (bit_or 0xE0 (v / 2 ^ 24 % 2 ^ 8)
            ∷ v / 2 ^ 16 % 2 ^ 8
            ∷ v / 2 ^ 8 % 2 ^ 8
            ∷ bit_and v 0xFF % 2 ^ 8
            ∷ [])
          v
  unfolding read_u64 read_from
  Encodes-four l h rest pos =
      let first = bit_or_sum 4 14 (v / 2 ^ 24 % 2 ^ 8) (omega arith) in
      read_behind_four _ _ _ (omega (arith, first)) (omega (arith, first)) (omega (arith, first))
      ∙ four_bytes_lem (v / 2 ^ 24 % 2 ^ 8) (v / 2 ^ 16 % 2 ^ 8) (v / 2 ^ 8 % 2 ^ 8)
          (bit_and v 0xFF % 2 ^ 8) (pos + 1) rest (omega arith) (omega arith) (omega arith)
          (omega arith)
      ∙ ground (arith, bit_and-ones 8 v)

  Encodes-five : v < 2 ^ 32 → Encodes (0xF0 ∷ to_be 4 (v % 2 ^ 32)) v
  unfolding read_u64 read_from
  Encodes-five h rest pos =
      read_behind_five 0xF0 _ _ (omega arith) (omega arith) (omega arith)
      ∙ be_loop-to_be 4 (v % 2 ^ 32) 0 0 (pos + 1) rest (omega arith) (omega arith)
      ∙ ground (arith, length-to_be 4 (v % 2 ^ 32))

  Encodes-nine : v < 2 ^ 64 → Encodes (0xF4 ∷ to_be 8 v) v
  unfolding read_u64 read_from
  Encodes-nine h rest pos =
      read_behind_nine 0xF4 _ _ (omega arith) (omega arith) (omega arith)
      ∙ be_loop-to_be 8 v 0 0 (pos + 1) rest (omega arith) (omega arith)
      ∙ ground (arith, length-to_be 8 v)

  write_u64-Encodes : v < 2 ^ 64 → Encodes (write_u64 v) v
  unfolding write_u64
  write_u64-Encodes h = elim (Bool-cases (ltb v 0x80)) [
    | inl a ↦ rw a (Encodes-one (ground arith))
    | inr a ↦ elim (Bool-cases (ltb v 0x4000)) [
      | inl b ↦ rw (a, b) (Encodes-two (ground arith) (ground arith))
      | inr b ↦ elim (Bool-cases (ltb v 0x20_0000)) [
        | inl c ↦ rw (a, b, c) (Encodes-three (ground arith) (ground arith))
        | inr c ↦ elim (Bool-cases (ltb v 0x1000_0000)) [
          | inl d ↦ rw (a, b, c, d) (Encodes-four (ground arith) (ground arith))
          | inr d ↦ elim (Bool-cases (ltb v 0x1_0000_0000)) [
            | inl e ↦ rw (a, b, c, d, e) (Encodes-five (ground arith))
            | inr e ↦ rw (a, b, c, d, e) (Encodes-nine h)
          ]
        ]
      ]
    ]
  ]

-- Every 64-bit value is read back from its encoding, whatever bytes follow, and the reader stands
-- behind the encoding.
pub read_u64-write_u64 :
    (v : ℕ) (rest : List ℕ) (pos : ℕ)
    → v < 2 ^ 64
    → read_u64 (advance (write_u64 v ++ rest) pos)
      ≡ some (v, advance rest (pos + length (write_u64 v)))
read_u64-write_u64 v rest pos h = write_u64-Encodes v h rest pos
