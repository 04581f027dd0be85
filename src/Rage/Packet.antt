-- ===== src/Rage/Packet.antt =====
-- The packets of the clone streams, crates/baston-protocol/src/rage/packet.rs. The two directions
-- of LZ4 (`lz4dict::compress_default`, `decompress_plain`, `decompress_using_dict`, calls of
-- liblz4) are arguments.
pub mod Progress
pub mod Frames
pub mod Stream
pub mod Decode
pub mod Delivery
pub mod Timestamps
use baston.Udp.{hash_rage_string, codes}
use baston.Prelude.Bytes.{to_le, from_le}
use baston.Prelude.{
  ℕ, zero, suc, ◌+◌, ◌-◌, ◌*◌, ◌/◌, ◌%◌, ◌^◌, bit_and, bit_or, Bool, true, false, not, ◌||◌, Option,
  none, some, List, [], ◌∷◌, ◌++◌, length, take, drop, ltb, ◌==◌, if◌then◌else◌,
}
use baston.Rage.Buffer.{MessageBuffer, new, from_bytes, with_length_hack, is_at_end, data_length}
use baston.Rage.Buffer.Monad.{Reader, ◌>>=◌}
use baston.Rage.Buffer.Fields.{get}
use baston.Rage.Clone.{
  InboundRecord, read_inbound, DownlinkRecord, read_downlink, OutboundClone, write_outbound_clone,
  write_outbound_remove, write_outbound_timestamp, write_end,
}

unfoldable pub net_clones : ℕ
net_clones = hash_rage_string (codes "netClones")

unfoldable pub net_acks : ℕ
net_acks = hash_rage_string (codes "netAcks")

unfoldable pub msg_packed_clones : ℕ
msg_packed_clones = hash_rage_string (codes "msgPackedClones")

unfoldable pub msg_packed_acks : ℕ
msg_packed_acks = hash_rage_string (codes "msgPackedAcks")

abbrev pub inbound_scratch : ℕ
inbound_scratch = 16384

abbrev pub flush_budget_bytes : ℕ
flush_budget_bytes = 1100 - 12 - 12

abbrev pub work_buf_bytes : ℕ
work_buf_bytes = 16384

pub record FrameIndex : Type 0 where
  pub last_fragment : Bool
  pub current_fragment : ℕ
  pub frame_index : ℕ

unfoldable pub last_bit : Bool → ℕ
last_bit true = 1
last_bit false = 0

-- `(x << k) | rest` on a `u64`
unfoldable pub to_u64 : FrameIndex → ℕ
unfolding last_bit
to_u64 f =
    bit_or (bit_or (last_bit f.last_fragment) (bit_and f.current_fragment 0x7F * 2))
      (bit_and f.frame_index (2 ^ 56 - 1) * 2 ^ 8 % 2 ^ 64)

unfoldable pub from_u64 : ℕ → FrameIndex
from_u64 v = record {
  last_fragment = not (bit_and v 1 == 0);
  current_fragment = bit_and (v / 2) 0x7F;
  frame_index = bit_and (v / 2 ^ 8) (2 ^ 56 - 1);
}

-- The loop of both decoders with `n` rounds left: a 3-bit type and the record behind it, until the
-- buffer ends or no record is read.
unfoldable pub records : {R : Type 0} → (ℕ → Reader R) → ℕ → MessageBuffer → List R
records read zero b = []
records read (suc n) b =
    if is_at_end b
    then []
    else let (b', found) = (get 3 >>= read) b in
      elim found [ none ↦ [] | some r ↦ r ∷ records read n b' ]

pub record IncomingPacket : Type 0 where
  pub msg_type : ℕ
  pub records : List InboundRecord

pub record DownlinkPacket : Type 0 where
  pub msg_type : ℕ
  pub frame : FrameIndex
  pub records : List DownlinkRecord

-- Every round moves the cursor, so a round for each bit is enough.
unfoldable pub all_records : {R : Type 0} → (ℕ → Reader R) → MessageBuffer → List R
all_records read b = records read b.max_bit b

module _ (decompress_using_dict : List ℕ → ℕ → Option (List ℕ)) where
  unfoldable pub decode_incoming : List ℕ → Bool → Option IncomingPacket
  decode_incoming payload length_hack =
      let msg_type = from_le (take 4 payload) in
      if ltb (length payload) 4
      then none
      else if not (msg_type == net_clones || msg_type == net_acks)
      then none
      else elim (decompress_using_dict (drop 4 payload) inbound_scratch) [
        | none ↦ none
        | some body ↦ some (record {
          msg_type = msg_type;
          records = all_records read_inbound (with_length_hack (from_bytes body) length_hack);
        })
      ]

module _ (decompress_plain : List ℕ → ℕ → Option (List ℕ)) where
  unfoldable pub decode_downlink : List ℕ → Option DownlinkPacket
  decode_downlink packet =
      if ltb (length packet) 12
      then none
      else elim (decompress_plain (drop 12 packet) inbound_scratch) [
        | none ↦ none
        | some body ↦ some (record {
          msg_type = from_le (take 4 packet);
          frame = from_u64 (from_le (take 8 (drop 4 packet)));
          records = all_records read_downlink (from_bytes body);
        })
      ]

pub record PackedWriter : Type 0 where
  pub msg_type : ℕ
  pub frame_index : ℕ
  pub buf : MessageBuffer
  pub fragment : ℕ
  pub packets : List (List ℕ)
  pub had_time : Bool
  pub length_hack : Bool

unfoldable pub work_buf : Bool → MessageBuffer
work_buf length_hack = with_length_hack (new work_buf_bytes) length_hack

unfoldable pub new_writer : ℕ → ℕ → Bool → PackedWriter
new_writer msg_type frame_index length_hack = record {
  msg_type = msg_type;
  frame_index = frame_index;
  buf = work_buf length_hack;
  fragment = 0;
  packets = [];
  had_time = false;
  length_hack = length_hack;
}

-- `next_bits.div_ceil(8)`
unfoldable pub bytes_of_bits : ℕ → ℕ
bytes_of_bits n = (n + 7) / 8

unfoldable pub worst_case : ℕ → ℕ
worst_case projected = projected + projected / 255 + 16

unfoldable pub clone_bits : OutboundClone → ℕ
clone_bits c = 3 + 16 + 16 + 4 + 32 + 16 + 64 + 32 + 12 + length c.blob * 8

module _ (compress_default : List ℕ → List ℕ) where
  unfoldable pub pack_frame : ℕ → FrameIndex → List ℕ → List ℕ
  pack_frame msg_type frame body =
      to_le 4 msg_type ++ (to_le 8 (to_u64 frame) ++ compress_default body)

  -- The batch closed with `END` and packed, with the fragment counter moved on.
  unfoldable pub emit : Bool → PackedWriter → PackedWriter
  emit last w =
      let closed = (write_end w.buf).0 in
      let raw = take (data_length closed) closed.bytes in
      let fragment = (w.fragment + 1) % 256 in
      let frame : FrameIndex = record {
        last_fragment = last;
        current_fragment = bit_and fragment 0x7F;
        frame_index = w.frame_index;
      } in
      record w {
        buf = closed;
        fragment = fragment;
        packets = w.packets ++ (pack_frame w.msg_type frame raw ∷ []);
      }

  unfoldable pub flush_fragment : PackedWriter → PackedWriter
  flush_fragment w =
      if data_length w.buf == 0
      then w
      else record (emit false w) { buf = work_buf w.length_hack; had_time = false }

  unfoldable pub maybe_flush : ℕ → PackedWriter → PackedWriter
  maybe_flush next_bits w =
      if ltb flush_budget_bytes (worst_case (data_length w.buf + bytes_of_bits next_bits))
      then flush_fragment w
      else w

  unfoldable pub ensure_timestamp : ℕ → PackedWriter → PackedWriter
  ensure_timestamp timestamp w =
      if w.had_time
      then w
      else let w' = maybe_flush (3 + 32 + 32) w in
        record w' { buf = (write_outbound_timestamp timestamp w'.buf).0; had_time = true }

  unfoldable pub write_clone : ℕ → OutboundClone → PackedWriter → PackedWriter
  write_clone timestamp c w =
      let w' = maybe_flush (clone_bits c) (ensure_timestamp timestamp w) in
      record w' { buf = (write_outbound_clone c w'.buf).0 }

  unfoldable pub write_remove : Bool → ℕ → ℕ → PackedWriter → PackedWriter
  write_remove force_steal object_id uniqifier w =
      let w' = maybe_flush (3 + 1 + 16 + 16) w in
      record w' { buf = (write_outbound_remove force_steal object_id uniqifier w'.buf).0 }

  unfoldable pub finish : PackedWriter → List (List ℕ)
  finish w = (emit true w).packets
