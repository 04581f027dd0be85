-- ===== src/Rage/Packet/Frames.antt =====
-- The bit field of a frame index.
use native.Mathlib.Nat.{mod-eq_of_lt}
use baston.Prelude.{
  ℕ, ◌+◌, ◌*◌, ◌/◌, ◌%◌, ◌^◌, ◌<◌, ◌≡◌, arith, Bool, true, false, not, bit_and, bit_or, ◌==◌, ◌∙◌,
  ap, ◌-◌,
}
use baston.Prelude.Bits.{bit_and-one, bit_and-ones, bit_or_sum_low}
use baston.Rage.Packet.{FrameIndex, last_bit, to_u64, from_u64}

last_bit-lt : (last : Bool) → last_bit last < 2
unfolding last_bit
last_bit-lt true = omega arith
last_bit-lt false = omega arith

last_bit_back : (last : Bool) (rest : ℕ) → not (bit_and (last_bit last + rest * 2) 1 == 0) ≡ last
unfolding last_bit
last_bit_back true rest = ground (arith, bit_and-one (1 + rest * 2))
last_bit_back false rest = ground (arith, bit_and-one (0 + rest * 2))

-- The fields that the bits have room for.
pub record IsFrame (f : FrameIndex) : Type 0 where
  pub fragment : f.current_fragment < 2 ^ 7
  pub index : f.frame_index < 2 ^ 56

-- The field as a sum.
pub to_u64-sum :
    (f : FrameIndex)
    → IsFrame f
    → to_u64 f ≡ last_bit f.last_fragment + f.current_fragment * 2 + f.frame_index * 2 ^ 8
unfolding to_u64
to_u64-sum f h =
    let bit = last_bit f.last_fragment in
    let fragment : bit_and f.current_fragment 127 ≡ f.current_fragment =
      bit_and-ones 7 f.current_fragment ∙ mod-eq_of_lt h.fragment in
    let index : bit_and f.frame_index (2 ^ 56 - 1) ≡ f.frame_index =
      bit_and-ones 56 f.frame_index ∙ mod-eq_of_lt h.index in
    let shifted : f.frame_index * 2 ^ 8 % 2 ^ 64 ≡ f.frame_index * 2 ^ 8 = omega (arith, h.index) in
    let low : bit_or bit (f.current_fragment * 2) ≡ f.current_fragment * 2 + bit =
      bit_or_sum_low 1 f.current_fragment bit (last_bit-lt f.last_fragment) in
    rw (fragment, index, shifted, low)
      (bit_or_sum_low 8 f.frame_index (f.current_fragment * 2 + bit)
          (omega (arith, h.fragment, last_bit-lt f.last_fragment))
        ∙ omega arith)

-- A frame index is unpacked from its 64 bits, if its fields are in range, and the number stays
-- below 2 ^ 64.
pub from_u64-to_u64 : (f : FrameIndex) → IsFrame f → (from_u64 (to_u64 f) ≡ f) × (to_u64 f < 2 ^ 64)
from_u64-to_u64 f h =
    let bit = last_bit f.last_fragment in
    let small = last_bit-lt f.last_fragment in
    let sum = to_u64-sum f h in
    let total = bit + f.current_fragment * 2 + f.frame_index * 2 ^ 8 in
    let last : not (bit_and total 1 == 0) ≡ f.last_fragment =
      ap (λ x. not (bit_and x 1 == 0)) (omega arith)
      ∙ last_bit_back f.last_fragment (f.current_fragment + f.frame_index * 128) in
    let fragment : bit_and (total / 2) 127 ≡ f.current_fragment =
      bit_and-ones 7 (total / 2) ∙ omega (arith, h.fragment) in
    let index : bit_and (total / 2 ^ 8) (2 ^ 56 - 1) ≡ f.frame_index =
      bit_and-ones 56 (total / 2 ^ 8) ∙ omega (arith, h.fragment, h.index) in
    (
      rw sum (
          unfold from_u64 in
          λ i. record {
            last_fragment = last i;
            current_fragment = fragment i;
            frame_index = index i;
          }),
      omega (arith, sum, h.fragment, h.index),
    )
