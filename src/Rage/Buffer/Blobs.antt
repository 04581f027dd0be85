-- ===== src/Rage/Buffer/Blobs.antt =====
-- `read_bits` and `write_bits`, the copies of bit strings into and out of the stream.
use baston.Prelude.{
  ℕ, ◌+◌, ◌*◌, ◌≤◌, ◌<◌, ◌≡◌, arith, List, true, length, All, ltb, if◌then◌else◌, Bool-cases, inl,
  inr,
}
use baston.Prelude.Bytes.{IsByte}
use baston.Rage.Buffer.{MessageBuffer, bit_at, read_bits, write_bits, set_current_bit, copy_bits}
use baston.Rage.Buffer.Bounds.{IsValid}
use baston.Rage.Buffer.Copy.{bit_at-copy_bits, length-copy_bits, copy_bits-IsByte}

module _ (b : MessageBuffer) (v : IsValid b) (src : List ℕ) (hs : All IsByte src) (len : ℕ)
    (src_fits : len ≤ length src * 8) where
  pub write_bits-IsValid : IsValid (write_bits b src len).0
  unfolding write_bits
  write_bits-IsValid = elim (Bool-cases (ltb b.max_bit (b.cur_bit + len))) [
    | inl e ↦ rw e v
    | inr e ↦
        let fits : b.cur_bit + len ≤ length b.bytes * 8 = ground (arith, v.within) in
        rw e (record {
          all_bytes =
              copy_bits-IsByte b.bytes src len b.cur_bit 0 v.all_bytes hs fits (omega arith);
          within =
              rw (length-copy_bits b.bytes src len b.cur_bit 0 v.all_bytes hs fits (omega arith))
                v.within;
        })
  ]

  -- A blob written at the cursor is read back at that place: the first `len` bits of the reader's
  -- array become those of the writer's, its other bits stay, and both cursors end behind the blob.
  pub read_bits-write_bits :
      (dest : List ℕ)
      → All IsByte dest
      → 0 < len
      → len ≤ length dest * 8
      → b.cur_bit + len ≤ b.max_bit
      → let w = write_bits b src len in
        let r = read_bits (set_current_bit w.0 b.cur_bit) dest len in
        (w.1 ≡ true)
        × (r.1.1 ≡ true)
        × (r.0 ≡ w.0)
        × ((j : ℕ) → bit_at r.1.0 j ≡ (if ltb j len then bit_at src j else bit_at dest j))
  unfolding write_bits read_bits set_current_bit
  read_bits-write_bits dest hd pos dest_fits fits =
      let inside : b.cur_bit + len ≤ length b.bytes * 8 = omega (arith, v.within) in
      let written = copy_bits b.bytes src len b.cur_bit 0 in
      (
        ground arith,
        ground arith,
        ground arith,
        λ j. ground (
          arith,
          bit_at-copy_bits dest written len 0 b.cur_bit hd
              (copy_bits-IsByte b.bytes src len b.cur_bit 0 v.all_bytes hs inside (omega arith))
              (omega arith)
              (rw (length-copy_bits b.bytes src len b.cur_bit 0 v.all_bytes hs inside (omega arith))
                inside)
              j,
          bit_at-copy_bits b.bytes src len b.cur_bit 0 v.all_bytes hs inside (omega arith)
              (b.cur_bit + j),
        ),
      )
