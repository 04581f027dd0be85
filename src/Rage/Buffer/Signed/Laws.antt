-- ===== src/Rage/Buffer/Signed/Laws.antt =====
-- What the signed and the 64-bit codecs read back of what they wrote.
use native.Mathlib.Nat.{mod-eq_of_lt}
use baston.Rage.Buffer.Words.{pow-le}
use baston.Prelude.{
  if◌then◌else◌, ◌==◌, ◌||◌, ltb, leb, ℕ, ◌+◌, ◌-◌, ◌*◌, ◌/◌, ◌%◌, ◌^◌, ◌≤◌, ◌<◌, ◌≡◌, arith, Bool,
  true, false, some, Bool-cases, inl, leb→le, inr,
}
use baston.Prelude.Bits.{bit_xor-zero, bit_xor-ones, bit_or_sum_low}
use baston.Rage.Buffer.{MessageBuffer, effective_len, write_bits_single, set_current_bit}
use baston.Rage.Buffer.Bounds.{IsValid}
use baston.Rage.Buffer.ReadWrite.{read_bits_single-write_bits_single, read_two-write_two}
use baston.Rage.Buffer.Signed.{
  read_signed, is_negative, write_signed, read_long, write_long, and_then, read_pair, decode_sign,
  join_words,
}

effective_len-le : (b : MessageBuffer) (len : ℕ) → len ≤ 32 → effective_len b len ≤ 32
unfolding effective_len
effective_len-le b len h = ground arith

effective_len_one : (b : MessageBuffer) → effective_len b 1 ≡ 1
unfolding effective_len
effective_len_one b = ground arith

-- Two fields written in a row are read back in a row.
module _ (b : MessageBuffer) (v : IsValid b) (v₁ l₁ v₂ l₂ : ℕ) where
  abbrev write_pair : MessageBuffer × Bool
  write_pair = and_then (write_bits_single b v₁ l₁) λ b'. write_bits_single b' v₂ l₂

  read_pair-write_pair :
      (f : ℕ → ℕ → ℕ)
      → effective_len b l₁ ≤ 32
      → effective_len b l₂ ≤ 32
      → b.cur_bit + effective_len b l₁ + effective_len b l₂ ≤ b.max_bit
      → (write_pair.1 ≡ true)
        × (read_pair l₁ l₂ f (set_current_bit write_pair.0 b.cur_bit)
            ≡ (write_pair.0, some (f (v₁ % 2 ^ effective_len b l₁) (v₂ % 2 ^ effective_len b l₂))))
  read_pair-write_pair f small₁ small₂ fits =
      let two = read_two-write_two b v v₁ l₁ v₂ l₂ small₁ small₂ fits in
      rw (two.0) (two.1, rw (two.2) (rw (two.3)))

decode_sign_pos : (x : ℕ) → x < 2 ^ 32 → decode_sign 0 x ≡ x
unfolding decode_sign
decode_sign_pos x h = ground (arith, bit_xor-zero x)

decode_sign_neg : (x : ℕ) → x < 2 ^ 32 → decode_sign 1 x ≡ (2 ^ 32 - x) % 2 ^ 32
unfolding decode_sign
decode_sign_neg x h = ground (arith, bit_xor-ones 32 x)

module _ (b : MessageBuffer) (v : IsValid b) (value len : ℕ) (pos : 1 ≤ len) (le : len ≤ 32)
    (fits : b.cur_bit + 1 + effective_len b (len - 1) ≤ b.max_bit) where
  open_guard : ((len == 0) || ltb 32 len) ≡ false
  open_guard = ground arith

  signed_pair :
      (sign field : ℕ)
      → let w = write_pair b v sign 1 field (len - 1) in
        (w.1 ≡ true)
        × (read_pair 1 (len - 1) decode_sign (set_current_bit w.0 b.cur_bit)
            ≡ (w.0, some (decode_sign (sign % 2) (field % 2 ^ effective_len b (len - 1)))))
  signed_pair sign field =
      let one = effective_len_one b in
      rw one at (
        read_pair-write_pair b v sign 1 field (len - 1) decode_sign (omega (arith, one))
          (effective_len-le b (len - 1) (omega arith)) (omega (arith, one)))

  -- A non-negative `i32` that fits in the value bits is read back as it was written.
  read_signed-write_signed_pos :
      value < 2 ^ 31
      → value < 2 ^ effective_len b (len - 1)
      → let w = write_signed b value len in
        (w.1 ≡ true) × (read_signed (set_current_bit w.0 b.cur_bit) len ≡ (w.0, some value))
  unfolding write_signed read_signed
  read_signed-write_signed_pos small in_range =
      let sign : is_negative value ≡ false = unfold is_negative in ground arith in
      let value' : decode_sign 0 (value % 2 ^ effective_len b (len - 1)) ≡ value =
        rw (mod-eq_of_lt in_range) (decode_sign_pos value (omega arith)) in
      rw (sign, open_guard, bit_xor-zero value) (rw value' at (signed_pair 0 value))

  -- A negative `i32` whose complement fits in the value bits comes back increased by one.
  pub read_signed-write_signed_neg :
      2 ^ 31 ≤ value
      → value < 2 ^ 32
      → 2 ^ 32 ≤ value + 2 ^ effective_len b (len - 1)
      → let w = write_signed b value len in
        (w.1 ≡ true)
        × (read_signed (set_current_bit w.0 b.cur_bit) len ≡ (w.0, some ((value + 1) % 2 ^ 32)))
  unfolding write_signed read_signed
  read_signed-write_signed_neg neg small in_range =
      let sign : is_negative value ≡ true = unfold is_negative in ground arith in
      let field = 2 ^ 32 - 1 - value in
      let small' : field < 2 ^ effective_len b (len - 1) = omega arith in
      let value' : decode_sign 1 (field % 2 ^ effective_len b (len - 1)) ≡ (value + 1) % 2 ^ 32 =
        rw (mod-eq_of_lt small') (omega (arith, decode_sign_neg field)) in
      rw (sign, open_guard, bit_xor-ones 32 value small) (rw value' at (signed_pair 1 field))

-- The bits that `write_long` takes, and the values that they hold.
unfoldable pub long_width : MessageBuffer → ℕ → ℕ
long_width b len =
    if leb len 32 then effective_len b len else effective_len b 32 + effective_len b (len - 32)

pub record IsLong (b : MessageBuffer) (value len : ℕ) : Type 0 where
  pub short : len ≤ 32 → value < 2 ^ effective_len b len
  pub long : 32 < len → value / 2 ^ 32 < 2 ^ effective_len b (len - 32)

effective_len_32 : (b : MessageBuffer) → effective_len b 32 ≡ 32
unfolding effective_len
effective_len_32 b = ground arith

pub join_words_lem :
    (low high : ℕ) → low < 2 ^ 32 → high < 2 ^ 32 → join_words low high ≡ high * 2 ^ 32 + low
unfolding join_words
join_words_lem low high hl hh =
    rw (mod-eq_of_lt {n = high * 2 ^ 32} {m = 2 ^ 64} (omega arith)) (bit_or_sum_low 32 high low hl)

module _ (b : MessageBuffer) (v : IsValid b) (value len : ℕ) (pos : 1 ≤ len) (le : len ≤ 64)
    (range : IsLong b value len) (fits : b.cur_bit + long_width b len ≤ b.max_bit) where
  short_case :
      len ≤ 32
      → let w = write_long b value len in
        (w.1 ≡ true) × (read_long (set_current_bit w.0 b.cur_bit) len ≡ (w.0, some value))
  unfolding write_long read_long long_width
  short_case h =
      let small : effective_len b len ≤ 32 = effective_len-le b len h in
      let low : value < 2 ^ 32 = omega (arith, range.short h, pow-le (effective_len b len) small) in
      ground (
        arith,
        mod-eq_of_lt {n = value} {m = 2 ^ 32} low,
        mod-eq_of_lt {n = value} {m = 2 ^ effective_len b len} (range.short h),
        read_bits_single-write_bits_single b v value len small,
      )

  long_case :
      32 < len
      → let w = write_long b value len in
        (w.1 ≡ true) × (read_long (set_current_bit w.0 b.cur_bit) len ≡ (w.0, some value))
  unfolding write_long read_long long_width
  long_case h =
      let short : leb len 32 ≡ false = ground arith in
      let start : ((len == 0) || ltb 64 len) ≡ false = ground arith in
      let small : effective_len b (len - 32) ≤ 32 = effective_len-le b (len - 32) (omega arith) in
      let word32 = effective_len_32 b in
      let room : b.cur_bit + effective_len b 32 + effective_len b (len - 32) ≤ b.max_bit =
        ground arith in
      let pair =
        read_pair-write_pair b v (value % 2 ^ 32) 32 (value / 2 ^ 32 % 2 ^ 32) (len - 32) join_words
          (omega (arith, word32)) small room in
      let high : value / 2 ^ 32 < 2 ^ 32 =
        omega (arith, range.long h, pow-le (effective_len b (len - 32)) small) in
      let value' : join_words (value % 2 ^ 32 % 2 ^ effective_len b 32)
            (value / 2 ^ 32 % 2 ^ 32 % 2 ^ effective_len b (len - 32))
          ≡ value =
        rw (word32, mod-eq_of_lt high, mod-eq_of_lt (range.long h))
          (omega (
            arith,
            join_words_lem (value % 2 ^ 32 % 2 ^ 32) (value / 2 ^ 32) (omega arith) high,
          )) in
      rw (short, start) (rw value' at pair)

  -- A 64-bit value that fits in its two fields is read back as it was written.
  read_long-write_long :
      let w = write_long b value len in
      (w.1 ≡ true) × (read_long (set_current_bit w.0 b.cur_bit) len ≡ (w.0, some value))
  read_long-write_long = elim (Bool-cases (leb len 32)) [
    | inl e ↦ short_case (leb→le len 32 e)
    | inr e ↦ long_case (ground arith)
  ]
