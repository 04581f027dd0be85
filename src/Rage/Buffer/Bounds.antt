-- ===== src/Rage/Buffer/Bounds.antt =====
-- The well-formedness of a buffer, established by every constructor and kept by every method. It
-- keeps each index into `bytes` in range, so no method panics.
use baston.Prelude.{
  ℕ, zero, suc, ◌+◌, ◌*◌, ◌/◌, ◌≤◌, ◌<◌, ◌≡◌, refl, arith, List, Bool, true, false, length, All,
  All-replicate, length-replicate, Bool-cases, bit_and, ◌^◌, ltb, inl, leb, ◌∙◌, inr, ◌%◌,
}
use baston.Prelude.Bytes.{IsByte}
use baston.Prelude.Bits.{bit_and-one}
use baston.Rage.Buffer.{
  MessageBuffer, new, from_bytes, from_bits, effective_len, bit_of_bool, read_bits_single,
  write_loop, write_bits_single, write_bit,
}
use baston.Rage.Buffer.BitLaws.{length-set_bit_at, set_bit_at-IsByte}

pub record IsValid (b : MessageBuffer) : Type 0 where
  pub all_bytes : All IsByte b.bytes
  pub within : b.max_bit ≤ length b.bytes * 8

pub bit_and-one-lt : (a : ℕ) → bit_and a 1 < 2
bit_and-one-lt a = omega (arith, bit_and-one a)

pub length-write_loop :
    (value n bit : ℕ) (bytes : List ℕ) → length (write_loop value n bit bytes) ≡ length bytes
unfolding write_loop
length-write_loop value zero bit bytes = refl
length-write_loop value (suc n) bit bytes =
    length-write_loop value n (bit + 1) _ ∙ length-set_bit_at bytes bit _

pub write_loop-IsByte :
    (value n bit : ℕ) (bytes : List ℕ)
    → All IsByte bytes
    → All IsByte (write_loop value n bit bytes)
unfolding write_loop
write_loop-IsByte value zero bit bytes h = h
write_loop-IsByte value (suc n) bit bytes h =
    write_loop-IsByte value n (bit + 1) _
      (set_bit_at-IsByte bytes bit _ h (bit_and-one-lt (value / 2 ^ (n % 32))))

pub new-IsValid : (size : ℕ) → IsValid (new size)
unfolding new
new-IsValid size = record {
  all_bytes = All-replicate IsByte size 0 (omega arith);
  within = omega (arith, length-replicate {A = ℕ} size 0);
}

pub from_bits-IsValid : (bytes : List ℕ) (n : ℕ) → All IsByte bytes → IsValid (from_bits bytes n)
unfolding from_bits
from_bits-IsValid bytes n h = record { all_bytes = h; within = omega arith }

pub from_bytes-IsValid : (bytes : List ℕ) → All IsByte bytes → IsValid (from_bytes bytes)
unfolding from_bytes
from_bytes-IsValid bytes h = record { all_bytes = h; within = omega arith }

bit_of_bool-lt : (bit : Bool) → bit_of_bool bit < 2
unfolding bit_of_bool
bit_of_bool-lt true = omega arith
bit_of_bool-lt false = omega arith

module _ (b : MessageBuffer) (v : IsValid b) where
  pub read_bits_single-IsValid : (len : ℕ) → IsValid (read_bits_single b len).0
  unfolding read_bits_single
  read_bits_single-IsValid len = ground arith

  pub write_bits_single-IsValid : (value len : ℕ) → IsValid (write_bits_single b value len).0
  unfolding write_bits_single
  write_bits_single-IsValid value len =
      elim (Bool-cases (ltb b.max_bit (b.cur_bit + effective_len b len))) [
        | inl e ↦ rw e v
        | inr e ↦ rw e (record {
          all_bytes = write_loop-IsByte value _ b.cur_bit b.bytes v.all_bytes;
          within = rw length-write_loop v.within;
        })
      ]

  pub write_bit-IsValid : (bit : Bool) → IsValid (write_bit b bit).0
  unfolding write_bit bit_of_bool
  write_bit-IsValid bit = elim (Bool-cases (leb (length b.bytes) (b.cur_bit / 8))) [
    | inl e ↦ rw e v
    | inr e ↦ rw e (record {
      all_bytes = set_bit_at-IsByte b.bytes b.cur_bit _ v.all_bytes (bit_of_bool-lt bit);
      within = rw length-set_bit_at v.within;
    })
  ]
