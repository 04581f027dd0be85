-- ===== src/Rage/Tests.antt =====
-- The theorems on the RAGE layer at concrete inputs, and runs of the code.
use baston.Prelude.{
  refl, ℕ, ◌+◌, ◌%◌, ◌^◌, ◌≤◌, ◌<◌, ◌≡◌, arith, true, false, none, some, List, [], ◌∷◌, ◌++◌,
  if◌then◌else◌, ◌-◌, ◌≢◌, leb, ltb, ◌&&◌,
}
use baston.Prelude.Bytes.{to_le}
use baston.Rage.Buffer.{
  MessageBuffer, new, effective_len, read_bits_single, write_bits_single, set_current_bit,
  copy_bits, copy_loop, read_bits, write_bits, bit_at,
}
use baston.Rage.Buffer.Bounds.{IsValid, new-IsValid}
use baston.Rage.Buffer.ReadWrite.{read_bits_single-write_bits_single, write_bits_single_lem, digit}
use baston.Rage.Buffer.Copy.{copy_bits-copy_loop}
use baston.Rage.Buffer.Blobs.{read_bits-write_bits}
use baston.Rage.Buffer.Signed.{write_signed, read_signed}
use baston.Rage.Buffer.Signed.Laws.{read_signed-write_signed_neg}
use baston.Rage.Reliability.{GameStateNAck, parse_nack, build_nack, has}
use baston.Rage.Reliability.RoundTrip.{IsWellFormed, parse_nack-build_nack}
use baston.Rage.ObjectIds.{
  build_object_ids, parse_object_ids, msg_object_ids, compress, compress_loop, extend,
}
use baston.Rage.ObjectIds.RoundTrip.{parse_object_ids-build_object_ids}
use baston.Prelude.Map.{lookup, insert, remove}
use baston.Rage.Slots
use baston.Rage.Slots.{slot_of, assign, release, SlotAllocator}
use baston.Rage.Slots.Laws.{
  Call, enter, leave, run, run-slots_distinct, IsConsistent, IsFirstVacant, run-IsConsistent,
  new-IsConsistent, assign_lem,
}

abbrev buffer : MessageBuffer
buffer = new 8

buffer-IsValid : IsValid buffer
buffer-IsValid = new-IsValid 8

read_bits_single-write_bits_single_example :
    let w = write_bits_single buffer 0x1FFF 13 in
    (w.1 ≡ true)
    × (read_bits_single (set_current_bit w.0 buffer.cur_bit) 13
        ≡ (w.0, some (0x1FFF % 2 ^ effective_len buffer 13)))
unfolding new effective_len
read_bits_single-write_bits_single_example =
    read_bits_single-write_bits_single buffer buffer-IsValid 0x1FFF 13 (omega arith) (omega arith)

write_bits_single_lem_example :
    let n = effective_len buffer 4 in
    let w = write_bits_single buffer 10 4 in
    (0 + n ≤ 64
      → (w.1 ≡ true)
        × (w.0.cur_bit ≡ 0 + n)
        × (w.0.max_bit ≡ 64)
        × (w.0.length_hack ≡ false)
        × ((j : ℕ)
            → bit_at w.0.bytes j ≡ (
                if leb 0 j && ltb j (0 + n)
                then digit 10 (0 + n - 1 - j)
                else bit_at buffer.bytes j)))
    × (64 < 0 + n → w ≡ (buffer, false))
unfolding new effective_len
write_bits_single_lem_example = write_bits_single_lem buffer buffer-IsValid 10 4 (omega arith)

abbrev source : List ℕ
source = 0xDE ∷ 0xAD ∷ 0xBE ∷ 0xEF ∷ []

abbrev zeros : List ℕ
zeros = 0 ∷ 0 ∷ 0 ∷ 0 ∷ []

copy_bits-copy_loop_example : copy_bits zeros source 16 8 0 ≡ copy_loop source 16 8 0 zeros
copy_bits-copy_loop_example =
    copy_bits-copy_loop zeros source 16 8 0 (omega arith) (omega arith) (omega arith) (omega arith)

read_bits-write_bits_example :
    let w = write_bits buffer source 13 in
    let r = read_bits (set_current_bit w.0 buffer.cur_bit) zeros 13 in
    (w.1 ≡ true)
    × (r.1.1 ≡ true)
    × (r.0 ≡ w.0)
    × ((j : ℕ) → bit_at r.1.0 j ≡ (if ltb j 13 then bit_at source j else bit_at zeros j))
unfolding new
read_bits-write_bits_example =
    read_bits-write_bits buffer buffer-IsValid source (omega arith) 13 (omega arith) zeros
      (omega arith) (omega arith) (omega arith) (omega arith)

-- -5 is written and -4 is read.
read_signed-write_signed_neg_example :
    let w = write_signed buffer (2 ^ 32 - 5) 14 in
    (w.1 ≡ true)
    × (read_signed (set_current_bit w.0 buffer.cur_bit) 14
        ≡ (w.0, some ((2 ^ 32 - 5 + 1) % 2 ^ 32)))
unfolding new effective_len
read_signed-write_signed_neg_example =
    read_signed-write_signed_neg buffer buffer-IsValid (2 ^ 32 - 5) 14 (omega arith) (omega arith)
      (omega arith) (omega arith) (omega arith) (omega arith)

abbrev nack : GameStateNAck
nack = record {
  flags = 7;
  frame_index = 0x1122_3344;
  missing_frames = some (100, 105);
  ignore_list = record { object_id = 42; last_frame = 9 } ∷ [];
  recreate_list = 7 ∷ 8 ∷ [];
}

nack-IsWellFormed : IsWellFormed nack
unfolding has
nack-IsWellFormed = record {
  frame = omega arith;
  frames = (refl, omega arith, omega arith);
  entries = (record { id = omega arith; frame = omega arith }, tt);
  few_entries = omega arith;
  no_entries = λ h. cc;
  ids = omega arith;
  few_ids = omega arith;
  no_ids = λ h. cc;
}

parse_nack-build_nack_example : parse_nack (build_nack nack ++ 1 ∷ []) ≡ some nack
parse_nack-build_nack_example = parse_nack-build_nack nack (1 ∷ []) nack-IsWellFormed

abbrev sparse : List ℕ
sparse = 5 ∷ 6 ∷ 7 ∷ 20 ∷ 21 ∷ 100 ∷ []

parse_object_ids-build_object_ids_example :
    (payload : List ℕ) × (build_object_ids sparse ≡ to_le 4 msg_object_ids ++ payload)
    × (parse_object_ids (payload ++ []) ≡ some sparse)
parse_object_ids-build_object_ids_example =
    parse_object_ids-build_object_ids sparse [] (omega arith) (omega arith)

compress_runs : compress sparse ≡ (4, 2) ∷ (11, 1) ∷ (77, 0) ∷ []
unfolding compress compress_loop extend
compress_runs = refl

abbrev calls : List Call
calls = enter 10 ∷ enter 11 ∷ leave 10 ∷ enter 12 ∷ []

calls_slot : slot_of (run calls Slots.new) 12 ≡ some 0
unfolding slot_of run assign release Slots.new Slots.first_vacant lookup insert remove
calls_slot = refl

run-slots_distinct_example :
    (slot_of (run calls Slots.new) 11 ≡ some 0 → ◌≡◌ {A = ℕ} 12 11) × (0 < 128) × (◌≢◌ {A = ℕ} 0 31)
run-slots_distinct_example = run-slots_distinct calls 12 11 0 calls_slot

abbrev calm : SlotAllocator
calm = run calls Slots.new

calm-IsConsistent : IsConsistent calm
calm-IsConsistent = run-IsConsistent calls Slots.new new-IsConsistent

assign_lem_example :
    ((slot : ℕ) → slot_of calm 13 ≡ some slot → assign calm 13 ≡ (calm, some slot))
    × ((slot : ℕ)
        → slot_of calm 13 ≡ none
        → (assign calm 13).1 ≡ some slot
        → IsFirstVacant calm.slots 0 128 slot
          × (slot_of (assign calm 13).0 13 ≡ some slot)
          × ((n : ℕ) → n ≢ 13 → slot_of (assign calm 13).0 n ≡ slot_of calm n))
    × ((assign calm 13).1 ≡ none
        → ((assign calm 13).0 ≡ calm) × ((j : ℕ) → j < 128 → j ≢ 31 → lookup j calm.slots ≢ none))
assign_lem_example = assign_lem calm calm-IsConsistent 13
