-- ===== src/Rage/PacketTests.antt =====
-- The theorems on the clone streams at concrete inputs, and runs of the code.
use baston.Prelude.{
  refl, ℕ, ◌+◌, ◌≤◌, ◌<◌, ◌≡◌, ◌^◌, arith, true, false, Option, none, some, List, [], ◌∷◌, length,
  All, ltb, ◌||◌, ◌==◌, if◌then◌else◌, map, inl,
}
use baston.Rage.Buffer.{MessageBuffer, new, set_current_bit, data_length}
use baston.Rage.Buffer.Bounds.{new-IsValid}
use baston.Rage.Clone.{
  OutboundClone, ped, clone, write_outbound_clone, DownlinkRecord, read_inbound, read_downlink,
}
use baston.Rage.Clone.RoundTrip.{
  IsOutbound, as_downlink, next_downlink, read_downlink-write_outbound_clone,
}
use baston.Rage.Packet.{
  PackedWriter, new_writer, finish, write_clone, work_buf, emit, records, all_records, clone_bits,
  flush_budget_bytes,
}
use baston.Rage.Packet.Progress.{all_records-fuel}
use baston.Rage.Packet.Delivery.{
  Call, clones, removes, IsCall, run, sent, received, without_timestamps, IsLossless,
}
use baston.Rage.Packet.Delivery.Writer.{received-finish}
use baston.Rage.Packet.Timestamps.{projected, write_clone_lem}

abbrev buffer : MessageBuffer
buffer = new 64

abbrev create_ped : OutboundClone
create_ped = record {
  sync_type = 1;
  object_id = 10;
  owner_net_id = 4;
  entity_type = some ped;
  creation_token = 0xABCD;
  uniqifier = 0x0F0F;
  dependent_frame_index = 2 ^ 40;
  timestamp = 0x1000;
  first_frame_update = true;
  blob = 0x11 ∷ 0x22 ∷ [];
}

create_ped-IsOutbound : IsOutbound false create_ped
create_ped-IsOutbound = record {
  kind = inl refl;
  id = omega arith;
  owner = omega arith;
  typed = λ h. (ped, refl);
  token = omega arith;
  uniq = omega arith;
  frame = omega arith;
  stamp = omega arith;
  bytes = (omega arith, (omega arith, tt));
  short = omega arith;
}

read_downlink-write_outbound_clone_example :
    let w = write_outbound_clone create_ped buffer in
    (w.1 ≡ true)
    × (next_downlink (set_current_bit w.0 buffer.cur_bit)
        ≡ (w.0, some (clone (as_downlink create_ped))))
unfolding new
read_downlink-write_outbound_clone_example =
    read_downlink-write_outbound_clone false create_ped create_ped-IsOutbound buffer
      (new-IsValid 64) refl (omega arith)

all_records-fuel_example :
    (records read_inbound 600 buffer ≡ all_records read_inbound buffer)
    × (records read_downlink 600 buffer ≡ all_records read_downlink buffer)
unfolding new
all_records-fuel_example = all_records-fuel 600 buffer (omega arith)

-- A codec that stores its input as it is, and refuses what an LZ4 block cannot be.
abbrev store : List ℕ → List ℕ
store body = body

abbrev unpack : List ℕ → ℕ → Option (List ℕ)
unpack body max_out = if (length body == 0) || ltb max_out (length body) then none else some body

store-IsLossless : IsLossless store unpack
store-IsLossless body max_out bytes pos small = ground arith

abbrev calls : List Call
calls = clones 0xDEADBEEF create_ped ∷ removes true 10 7 ∷ clones 3 create_ped ∷ []

calls-IsCall : All IsCall calls
calls-IsCall = (
  (omega arith, create_ped-IsOutbound),
  ((omega arith, omega arith), ((omega arith, create_ped-IsOutbound), tt)),
)

received-finish_example :
    (out : List DownlinkRecord) × (received unpack
        (finish store (run store calls (new_writer 7 99 false)))
      ≡ some out)
    × (without_timestamps out ≡ map sent calls)
received-finish_example =
    received-finish store unpack store-IsLossless 7 99 calls (omega arith) (omega arith)
      calls-IsCall

-- A writer with a time stamp and 1000 bytes behind it.
abbrev nearly_full : PackedWriter
nearly_full = record {
  msg_type = 7;
  frame_index = 99;
  buf = set_current_bit (work_buf false) 8400;
  fragment = 0;
  packets = [];
  had_time = true;
  length_hack = false;
}

write_clone_lem_example :
    let w' = write_clone store 5 create_ped nearly_full in
    (projected nearly_full (clone_bits create_ped) ≤ flush_budget_bytes
      → (w'.buf ≡ (write_outbound_clone create_ped nearly_full.buf).0)
        × (w'.packets ≡ [])
        × (w'.had_time ≡ true))
    × (flush_budget_bytes < projected nearly_full (clone_bits create_ped)
        → 0 < data_length nearly_full.buf
        → (w'.buf ≡ (write_outbound_clone create_ped (work_buf false)).0)
          × (w'.packets ≡ (emit store false nearly_full).packets)
          × (length w'.packets ≡ 0 + 1)
          × (w'.had_time ≡ false))
write_clone_lem_example = write_clone_lem store 5 create_ped nearly_full refl
