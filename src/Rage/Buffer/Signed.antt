-- ===== src/Rage/Buffer/Signed.antt =====
-- `read_signed`, `write_signed`, `read_long` and `write_long`. The laws are in the children.
pub mod Laws
use baston.Prelude.{
  ℕ, ◌+◌, ◌-◌, ◌*◌, ◌/◌, ◌%◌, ◌^◌, bit_or, bit_xor, Bool, true, false, ◌||◌, Option, none, some,
  ltb, leb, ◌==◌, if◌then◌else◌,
}
use baston.Rage.Buffer.{MessageBuffer, read_bits_single, write_bits_single}
use baston.Rage.Buffer.Monad.{Reader, ◌>>=◌, pure, fail, and_then}

-- A read of `len` bits, as a reader.
abbrev pub bits : ℕ → Reader ℕ
bits len b = read_bits_single b len

-- `-x` on the bit pattern of an `i32`.
unfoldable pub neg32 : ℕ → ℕ
neg32 x = (2 ^ 32 - x) % 2 ^ 32

-- `sign + (data ^ -sign)`
unfoldable pub decode_sign : ℕ → ℕ → ℕ
unfolding neg32
decode_sign sign field = (sign + bit_xor field (neg32 sign)) % 2 ^ 32

-- Two reads in a row, and a value from both.
abbrev pub read_pair : ℕ → ℕ → (ℕ → ℕ → ℕ) → Reader ℕ
read_pair l₁ l₂ f = do x ← bits l₁; y ← bits l₂; pure (f x y)

unfoldable pub read_signed : MessageBuffer → ℕ → MessageBuffer × Option ℕ
read_signed b len =
    if (len == 0) || ltb 32 len then (b, none) else read_pair 1 (len - 1) decode_sign b

-- `value < 0` for the bit pattern of an `i32`.
unfoldable pub is_negative : ℕ → Bool
is_negative value = leb (2 ^ 31) value

unfoldable pub write_signed : MessageBuffer → ℕ → ℕ → MessageBuffer × Bool
unfolding is_negative
write_signed b value len =
    let sign = if is_negative value then 1 else 0 in
    let sign_ex = if is_negative value then 2 ^ 32 - 1 else 0 in
    and_then (write_bits_single b sign 1)
      λ b'. write_bits_single b' (bit_xor value sign_ex) (len - 1)

-- `u64::from(low) | (u64::from(high) << 32)`
unfoldable pub join_words : ℕ → ℕ → ℕ
join_words low high = bit_or low (high * 2 ^ 32 % 2 ^ 64)

unfoldable pub read_long : MessageBuffer → ℕ → MessageBuffer × Option ℕ
read_long b len =
    if (len == 0) || ltb 64 len
    then (b, none)
    else if leb len 32
    then read_bits_single b len
    else read_pair 32 (len - 32) join_words b

-- `value as u32` keeps the low 32 bits.
unfoldable pub write_long : MessageBuffer → ℕ → ℕ → MessageBuffer × Bool
write_long b value len =
    if leb len 32
    then write_bits_single b (value % 2 ^ 32) len
    else and_then (write_bits_single b (value % 2 ^ 32) 32)
        λ b'. write_bits_single b' (value / 2 ^ 32 % 2 ^ 32) (len - 32)
