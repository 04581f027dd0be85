-- ===== src/Voice/Pds.antt =====
-- The variable-length integers of the voice packets, crates/baston-voice/src/pds.rs.
pub mod Masks
pub mod RoundTrip
use baston.Prelude.Bytes.{to_be}
use baston.Prelude.Parser.{Parser, ◌>>=◌, pure}
use baston.Prelude.{
  ℕ, zero, suc, ◌+◌, ◌-◌, ◌*◌, ◌/◌, ◌%◌, ◌^◌, bit_and, bit_or, ltb, ◌==◌, Option, none, some, List,
  [], ◌∷◌, ◌++◌, if◌then◌else◌,
}

-- A reader by the bytes behind its position, `buf[pos..]`, and the position.
pub record PdsReader : Type 0 where
  pub unread : List ℕ
  pub pos : ℕ

unfoldable pub new : List ℕ → PdsReader
new buf = record { unread = buf; pos = 0 }

unfoldable pub offset : PdsReader → ℕ
offset r = r.pos

unfoldable pub remaining : PdsReader → List ℕ
remaining r = r.unread

abbrev pub advance : List ℕ → ℕ → PdsReader
advance unread pos = record { unread = unread; pos = pos }

unfoldable pub next_byte : Parser PdsReader ℕ
next_byte r = elim r.unread [ [] ↦ none | b ∷ rest ↦ some (b, advance rest (r.pos + 1)) ]

unfoldable pub read_raw_byte : Parser PdsReader ℕ
read_raw_byte = next_byte

-- `for _ in 0..n { v = (v << 8) | self.next_byte()? }`
unfoldable pub be_loop : ℕ → ℕ → Parser PdsReader ℕ
be_loop zero v = pure v
be_loop (suc n) v = do b ← next_byte; be_loop n (bit_or (v * 2 ^ 8 % 2 ^ 64) b)

unfoldable pub two_bytes : ℕ → Parser PdsReader ℕ
two_bytes v0 = do b1 ← next_byte; pure (bit_or (bit_and v0 0x3F * 2 ^ 8) b1)

unfoldable pub three_bytes : ℕ → Parser PdsReader ℕ
three_bytes v0 = do
  b1 ← next_byte
  b2 ← next_byte
  pure (bit_or (bit_or (bit_and v0 0x1F * 2 ^ 16) (b1 * 2 ^ 8)) b2)

unfoldable pub four_bytes : ℕ → Parser PdsReader ℕ
four_bytes v0 = do
  b1 ← next_byte
  b2 ← next_byte
  b3 ← next_byte
  pure (bit_or (bit_or (bit_or (bit_and v0 0x0F * 2 ^ 24) (b1 * 2 ^ 16)) (b2 * 2 ^ 8)) b3)

-- What `read_u64` does behind the first byte; `negated` is its call of itself there.
unfoldable pub read_behind : ℕ → Option (ℕ × PdsReader) → PdsReader → Option (ℕ × PdsReader)
read_behind v0 negated r =
    if bit_and v0 0x80 == 0
    then some (v0, r)
    else if bit_and v0 0xC0 == 0x80
    then two_bytes v0 r
    else if bit_and v0 0xE0 == 0xC0
    then three_bytes v0 r
    else if bit_and v0 0xF0 == 0xE0
    then four_bytes v0 r
    else if bit_and v0 0xFC == 0xF0
    then be_loop 4 0 r
    else if bit_and v0 0xFC == 0xF4
    then be_loop 8 0 r
    else if bit_and v0 0xFC == 0xF8
    then elim negated [ none ↦ none | some (_, r') ↦ some (0, r') ]
    else some ((2 ^ 64 - (bit_and v0 0x03 + 1)) % 2 ^ 64, r)

unfoldable pub read_from : List ℕ → ℕ → Option (ℕ × PdsReader)
read_from [] pos = none
read_from (v0 ∷ rest) pos =
    let negated = read_from rest (pos + 1) in read_behind v0 negated (advance rest (pos + 1))

unfoldable pub read_u64 : Parser PdsReader ℕ
read_u64 r = read_from r.unread r.pos

-- `as u32`
unfoldable pub read_u32 : Parser PdsReader ℕ
read_u32 = do v ← read_u64; pure (v % 2 ^ 32)

abbrev byte : ℕ → ℕ
byte n = n % 2 ^ 8

-- The bytes that `write_u64` appends.
unfoldable pub write_u64 : ℕ → List ℕ
write_u64 value =
    if ltb value 0x80
    then byte value ∷ []
    else if ltb value 0x4000
    then bit_or 0x80 (byte (value / 2 ^ 8)) ∷ byte (bit_and value 0xFF) ∷ []
    else if ltb value 0x20_0000
    then bit_or 0xC0 (byte (value / 2 ^ 16)) ∷ byte (value / 2 ^ 8) ∷ byte (bit_and value 0xFF) ∷ []
    else if ltb value 0x1000_0000
    then bit_or 0xE0 (byte (value / 2 ^ 24))
      ∷ byte (value / 2 ^ 16)
      ∷ byte (value / 2 ^ 8)
      ∷ byte (bit_and value 0xFF)
      ∷ []
    else if ltb value 0x1_0000_0000
    then 0xF0 ∷ to_be 4 (value % 2 ^ 32)
    else 0xF4 ∷ to_be 8 value
