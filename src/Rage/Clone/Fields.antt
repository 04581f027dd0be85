-- ===== src/Rage/Clone/Fields.antt =====
-- The single bits and the byte strings of a clone record are read back.
use baston.Prelude.{
  refl, ℕ, zero, suc, ◌+◌, ◌*◌, ◌/◌, ◌≤◌, ◌<◌, ◌≡◌, arith, Bool, true, false, some, List, [], ◌∷◌,
  length, All, leb, ltb, ◌==◌, if◌then◌else◌, ◌∙◌, ap, replicate, length-replicate, All-replicate,
  ◌-◌, Bool-cases, inl, inr, get_or,
}
use baston.Prelude.Bytes.{IsByte}
use baston.Rage.Buffer.{
  MessageBuffer, set_current_bit, bit_at, bit_of_bool, write_bit, read_bit, read_bits, write_bits,
  copy_bits, bit_of,
}
use baston.Rage.Buffer.BitLaws.{bit_at-set_bit_at, length-set_bit_at}
use baston.Rage.Buffer.Bounds.{IsValid, write_bit-IsValid}
use baston.Rage.Buffer.Copy.{bit_at-copy_bits, length-copy_bits, copy_bits-IsByte, bytes_ext}
use baston.Rage.Buffer.Fields.{ReadBack, ReadBack-nothing, Written}
use baston.Rage.Clone.{put_flag, get_flag, put_blob, get_blob}

bit_of_bool-lt : (flag : Bool) → bit_of_bool flag < 2
unfolding bit_of_bool
bit_of_bool-lt true = omega arith
bit_of_bool-lt false = omega arith

write_bit_bits :
    (b : MessageBuffer) (flag : Bool) (j : ℕ)
    → IsValid b
    → b.cur_bit + 1 ≤ b.max_bit
    → bit_at (write_bit b flag).0.bytes j
      ≡ (if b.cur_bit == j then bit_of_bool flag else bit_at b.bytes j)
unfolding write_bit
write_bit_bits b flag j v fits =
    let inside : leb (length b.bytes) (b.cur_bit / 8) ≡ false = ground (arith, v.within) in
    rw inside (
      bit_at-set_bit_at b.bytes b.cur_bit (bit_of_bool flag) j v.all_bytes (bit_of_bool-lt flag)
        (omega (arith, v.within)))

write_bit_shape :
    (b : MessageBuffer) (flag : Bool)
    → IsValid b
    → b.cur_bit + 1 ≤ b.max_bit
    → let w = write_bit b flag in
      (w.1 ≡ true)
      × (w.0.cur_bit ≡ b.cur_bit + 1)
      × (w.0.max_bit ≡ b.max_bit)
      × (w.0.length_hack ≡ b.length_hack)
      × (length w.0.bytes ≡ length b.bytes)
unfolding write_bit
write_bit_shape b flag v fits =
    let inside : leb (length b.bytes) (b.cur_bit / 8) ≡ false = ground (arith, v.within) in
    rw inside (refl, refl, refl, refl, length-set_bit_at b.bytes b.cur_bit (bit_of_bool flag))

get_flag_lem :
    (f : MessageBuffer) (flag : Bool) (start : ℕ)
    → IsValid f
    → f.cur_bit ≡ start
    → start + 1 ≤ f.max_bit
    → bit_at f.bytes start ≡ bit_of_bool flag
    → get_flag f ≡ (set_current_bit f (start + 1), some flag)
unfolding get_flag read_bit set_current_bit bit_of_bool
get_flag_lem f true start v e fits h =
    let inside : leb (length f.bytes) (start / 8) ≡ false = ground (arith, v.within) in
    rw (e, inside, h) refl
get_flag_lem f false start v e fits h =
    let inside : leb (length f.bytes) (start / 8) ≡ false = ground (arith, v.within) in
    rw (e, inside, h) refl

pub ReadBack-flag : (hack flag : Bool) → ReadBack hack (put_flag flag) 1 get_flag flag
unfolding put_flag
ReadBack-flag hack flag b v m fits =
    let (done, cursor, limit, mode, size) = write_bit_shape b flag v fits in
    (
      done,
      record {
        valid = write_bit-IsValid b v flag;
        cursor = cursor;
        limit = limit;
        inside = omega (arith, cursor, limit);
        mode = mode;
        size = size;
        kept = λ j h. ground (arith, write_bit_bits b flag j v fits);
      },
      λ f held. get_flag_lem f flag b.cur_bit held.valid held.cursor held.room (
          held.same b.cur_bit (omega arith) (omega arith)
          ∙ ground (arith, write_bit_bits b flag b.cur_bit v fits)),
    )

get_or_beyond : (ys : List ℕ) (i : ℕ) → length ys ≤ i → get_or ys i 0 ≡ 0
get_or_beyond [] i h = refl
get_or_beyond (y ∷ ys) zero h = absurd (omega arith)
get_or_beyond (y ∷ ys) (suc i) h = get_or_beyond ys i (omega arith)

bit_at_beyond : (ys : List ℕ) (j : ℕ) → length ys * 8 ≤ j → bit_at ys j ≡ bit_of 0 j
unfolding bit_at
bit_at_beyond ys j h = rw (get_or_beyond ys (j / 8) (omega arith)) refl

-- A string of bits that is written at the cursor.
pub write_bits_shape :
    (xs : List ℕ) (n : ℕ) (b : MessageBuffer)
    → All IsByte xs
    → n ≤ length xs * 8
    → IsValid b
    → b.cur_bit + n ≤ b.max_bit
    → let w = write_bits b xs n in
      (w.1 ≡ true)
      × Written b w.0 n
      × ((j : ℕ)
          → b.cur_bit ≤ j
          → j < b.cur_bit + n
          → bit_at w.0.bytes j ≡ bit_at xs (j - b.cur_bit))
unfolding write_bits
write_bits_shape xs n b bytes enough v fits =
    let room : ltb b.max_bit (b.cur_bit + n) ≡ false = ground arith in
    let inside : b.cur_bit + n ≤ length b.bytes * 8 = omega (arith, v.within) in
    let copied = bit_at-copy_bits b.bytes xs n b.cur_bit 0 v.all_bytes bytes inside (omega arith) in
    let size = length-copy_bits b.bytes xs n b.cur_bit 0 v.all_bytes bytes inside (omega arith) in
    rw room (
      refl,
      record {
        valid = record {
          all_bytes =
              copy_bits-IsByte b.bytes xs n b.cur_bit 0 v.all_bytes bytes inside (omega arith);
          within = rw size (v.within);
        };
        cursor = refl;
        limit = refl;
        inside = fits;
        mode = refl;
        size = size;
        kept = λ j h. ground (arith, copied j);
      },
      λ j l u. ground (arith, copied j),
    )

module _ (xs : List ℕ) (bytes : All IsByte xs) (some_bytes : 0 < length xs) where
  get_blob_lem :
      (f : MessageBuffer) (start : ℕ)
      → IsValid f
      → f.cur_bit ≡ start
      → start + length xs * 8 ≤ f.max_bit
      → ((j : ℕ) → j < length xs * 8 → bit_at f.bytes (start + j) ≡ bit_at xs j)
      → get_blob (length xs) f ≡ (set_current_bit f (start + length xs * 8), some xs)
  unfolding get_blob read_bits set_current_bit
  get_blob_lem f start v here fits same =
      let size = length xs in
      let fresh : List ℕ = replicate size 0 in
      let zeros = All-replicate IsByte size 0 (omega arith) in
      let counted : length fresh ≡ size = length-replicate {A = ℕ} size 0 in
      let room : ltb f.max_bit (start + size * 8) ≡ false = ground arith in
      let inside : start + size * 8 ≤ length f.bytes * 8 = omega (arith, v.within) in
      let fresh_fits : 0 + size * 8 ≤ length fresh * 8 = omega (arith, counted) in
      let taken =
        bit_at-copy_bits fresh f.bytes (size * 8) 0 start zeros v.all_bytes fresh_fits inside in
      let read : copy_bits fresh f.bytes (size * 8) 0 start ≡ xs =
        bytes_ext _ xs
          (copy_bits-IsByte fresh f.bytes (size * 8) 0 start zeros v.all_bytes fresh_fits inside)
          bytes
          (length-copy_bits fresh f.bytes (size * 8) 0 start zeros v.all_bytes fresh_fits inside
            ∙ counted)
          λ j. elim (Bool-cases (ltb j (size * 8))) [
            | inl e ↦ ground (arith, taken j, same j)
            | inr e ↦ ground (
              arith,
              taken j,
              bit_at_beyond xs j (ground arith),
              bit_at_beyond fresh j (ground (arith, counted)),
            )
          ] in
      let full : (size == 0) ≡ false = ground arith in
      let full8 : (size * 8 == 0) ≡ false = ground arith in rw (full, full8, here, room, read) refl

pub ReadBack-blob :
    (hack : Bool) (xs : List ℕ)
    → All IsByte xs
    → ReadBack hack (put_blob xs) (length xs * 8) (get_blob (length xs)) xs
unfolding put_blob
ReadBack-blob hack [] h = unfold get_blob in ReadBack-nothing hack []
ReadBack-blob hack (x ∷ xs) h = λ b v m fits.
    let (done, written, stored) =
      write_bits_shape (x ∷ xs) (length (x ∷ xs) * 8) b h (omega arith) v fits in
    (
      done,
      written,
      λ f held.
          get_blob_lem (x ∷ xs) h (omega arith) f b.cur_bit held.valid held.cursor held.room λ j l.
            held.same (b.cur_bit + j) (omega arith) (omega arith)
            ∙ stored (b.cur_bit + j) (omega arith) (omega arith)
            ∙ ap (bit_at (x ∷ xs)) (omega arith),
    )
