-- ===== src/Voice/Pds/Masks.antt =====
-- The prefixes of the first byte, as ranges: which case of the decoder a byte selects.
use baston.Prelude.Bits.{every, every-holds}
use baston.Prelude.{
  refl, ℕ, ◌≤◌, ◌<◌, ◌≡◌, arith, Bool, true, ◌&&◌, not, ltb, leb, ◌==◌, if◌then◌else◌, bit_and,
  Option, some,
}
use baston.Voice.Pds.{PdsReader, read_behind, two_bytes, three_bytes, four_bytes, be_loop}

-- The test `x & mask == prefix` holds exactly on the bytes from `low` up to `high`.
abbrev agrees : ℕ → ℕ → ℕ → ℕ → ℕ → Bool
agrees mask prefix low high x =
    let test = bit_and x mask == prefix in if leb low x && ltb x high then test else not test

prefix_table :
    every 256 (λ x.
      (agrees 0x80 0 0 128 x && agrees 0xC0 0x80 128 192 x)
      && (agrees 0xE0 0xC0 192 224 x && agrees 0xF0 0xE0 224 240 x)
      && (agrees 0xFC 0xF0 240 244 x && agrees 0xFC 0xF4 244 248 x && agrees 0xFC 0xF8 248 252 x))
    ≡ true
unfolding every
prefix_table = refl

-- The decoder by the range of its first byte.
module _ (v0 : ℕ) (negated : Option (ℕ × PdsReader)) (r : PdsReader) (small : v0 < 256) where
  pub read_behind_one : v0 < 128 → read_behind v0 negated r ≡ some (v0, r)
  unfolding read_behind
  read_behind_one h = ground (arith, every-holds 256 _ v0 prefix_table small)

  pub read_behind_two : 128 ≤ v0 → v0 < 192 → read_behind v0 negated r ≡ two_bytes v0 r
  unfolding read_behind
  read_behind_two l h = ground (arith, every-holds 256 _ v0 prefix_table small)

  pub read_behind_three : 192 ≤ v0 → v0 < 224 → read_behind v0 negated r ≡ three_bytes v0 r
  unfolding read_behind
  read_behind_three l h = ground (arith, every-holds 256 _ v0 prefix_table small)

  pub read_behind_four : 224 ≤ v0 → v0 < 240 → read_behind v0 negated r ≡ four_bytes v0 r
  unfolding read_behind
  read_behind_four l h = ground (arith, every-holds 256 _ v0 prefix_table small)

  pub read_behind_five : 240 ≤ v0 → v0 < 244 → read_behind v0 negated r ≡ be_loop 4 0 r
  unfolding read_behind
  read_behind_five l h = ground (arith, every-holds 256 _ v0 prefix_table small)

  pub read_behind_nine : 244 ≤ v0 → v0 < 248 → read_behind v0 negated r ≡ be_loop 8 0 r
  unfolding read_behind
  read_behind_nine l h = ground (arith, every-holds 256 _ v0 prefix_table small)
