-- ===== src/Rage/Packet/Delivery.antt =====
-- What the client receives over all the fragments that a writer sends, and what it should: the
-- terms of the theorem in Delivery.Writer.
pub mod Writer
use baston.Prelude.Bytes.{IsByte, to_le, from_le, length-to_le}
use baston.Udp.Laws.{drop-field, length-field, read-field}
use baston.Prelude.{
  refl, ℕ, zero, suc, ◌+◌, ◌-◌, ◌*◌, ◌/◌, ◌%◌, ◌^◌, ◌≤◌, ◌<◌, ◌≡◌, arith, Bool, true, false, Option,
  none, some, List, [], ◌∷◌, ◌++◌, ltb, leb, ◌==◌, if◌then◌else◌, Bool-cases, inl, inr, ap, sym,
  ◌∙◌, length, take, drop, All, map, append_assoc, append-nil, bit_and, drop-drop,
}
use baston.Prelude.Bits.{bit_and-ones}
use baston.Rage.Buffer.{MessageBuffer, from_bytes, data_length}
use baston.Rage.Buffer.Fields.{width, Written}
use baston.Rage.Clone.{
  DownlinkRecord, clone, remove, timestamp, OutboundClone, read_downlink, write_end,
  write_outbound_clone,
}
use baston.Rage.Clone.RoundTrip.{
  IsOutbound, as_downlink, clone_width, ReadBack-clone, ReadBack-remove, ReadBack-timestamp,
}
use baston.Rage.Packet.{
  FrameIndex, to_u64, from_u64, DownlinkPacket, decode_downlink, all_records, PackedWriter,
  new_writer, work_buf, work_buf_bytes, pack_frame, emit, flush_fragment, maybe_flush,
  ensure_timestamp, write_clone, write_remove, finish, clone_bits, worst_case, bytes_of_bits,
  flush_budget_bytes,
}
use baston.Rage.Packet.Frames.{IsFrame, from_u64-to_u64}
use baston.Rage.Packet.Stream.{Carries, Carries-nothing, Carries-snoc}
use baston.Rage.Packet.Decode.{
  closed_bytes, all_records-closed, closed_bytes-length, data_length_lem,
}

-- The calls of a client's writer.
pub data Call : Type 0 where
  clones : (time : ℕ) → OutboundClone → Call
  removes : (force_steal : Bool) → (object_id uniqifier : ℕ) → Call

-- The calls made one after the other.
unfoldable pub run : (List ℕ → List ℕ) → List Call → PackedWriter → PackedWriter
run compress [] w = w
run compress (clones time c ∷ calls) w = run compress calls (write_clone compress time c w)
run compress (removes force_steal object_id uniqifier ∷ calls) w =
    run compress calls (write_remove compress force_steal object_id uniqifier w)

-- The record that a call should deliver.
abbrev pub sent : Call → DownlinkRecord
sent (clones time c) = clone (as_downlink c)
sent (removes force_steal object_id uniqifier) = remove force_steal object_id uniqifier

abbrev pub IsCall : Call → Type 0
IsCall (clones time c) = (time < 2 ^ 64) × IsOutbound false c
IsCall (removes force_steal object_id uniqifier) = (object_id < 2 ^ 13) × (uniqifier < 2 ^ 16)

abbrev pub without_timestamps : List DownlinkRecord → List DownlinkRecord
without_timestamps [] = []
without_timestamps (timestamp t ∷ rs) = without_timestamps rs
without_timestamps (clone c ∷ rs) = clone c ∷ without_timestamps rs
without_timestamps (remove f o u ∷ rs) = remove f o u ∷ without_timestamps rs

pub without_timestamps-append :
    (xs ys : List DownlinkRecord)
    → without_timestamps (xs ++ ys) ≡ without_timestamps xs ++ without_timestamps ys
without_timestamps-append [] ys = refl
without_timestamps-append (timestamp t ∷ xs) ys = without_timestamps-append xs ys
without_timestamps-append (clone c ∷ xs) ys = ap (◌∷◌ (clone c)) (without_timestamps-append xs ys)
without_timestamps-append (remove f o u ∷ xs) ys =
    ap (◌∷◌ (remove f o u)) (without_timestamps-append xs ys)

-- LZ4 gives back what it compressed, if that is not empty and fits in the scratch buffer.
abbrev pub IsLossless : (List ℕ → List ℕ) → (List ℕ → ℕ → Option (List ℕ)) → Type 0
IsLossless compress decompress =
    (body : List ℕ) (max_out : ℕ)
    → All IsByte body
    → 1 ≤ length body
    → length body ≤ max_out
    → decompress (compress body) max_out ≡ some body

-- The records of all fragments, in order; none if a fragment is not decoded.
abbrev pub received : (List ℕ → ℕ → Option (List ℕ)) → List (List ℕ) → Option (List DownlinkRecord)
received decompress [] = some []
received decompress (p ∷ ps) = elim (decode_downlink decompress p) [
  | none ↦ none
  | some d ↦ elim (received decompress ps) [ none ↦ none | some rest ↦ some (d.records ++ rest) ]
]

joined :
    (found : Option DownlinkPacket) (rest : Option (List DownlinkRecord)) (rs : List DownlinkRecord)
    → (elim found [
      | none ↦ none
      | some d ↦ elim rest [ none ↦ none | some rest ↦ some (d.records ++ rest) ]
    ])
      ≡ some rs
    → (d : DownlinkPacket) × (tail : List DownlinkRecord) × (found ≡ some d)
      × (rest ≡ some tail)
      × (d.records ++ tail ≡ rs)
joined none rest rs h = absurd (ground arith)
joined (some d) none rs h = absurd (ground arith)
joined (some d) (some tail) rs h = (d, tail, refl, refl, cc h)

pub received-snoc :
    (decompress : List ℕ → ℕ → Option (List ℕ)) (ps : List (List ℕ)) (p : List ℕ)
    (rs : List DownlinkRecord) (d : DownlinkPacket)
    → received decompress ps ≡ some rs
    → decode_downlink decompress p ≡ some d
    → received decompress (ps ++ (p ∷ [])) ≡ some (rs ++ d.records)
received-snoc decompress [] p rs d h e =
    let start : [] ≡ rs = cc h in
    rw (e, received) (ap some (append-nil d.records ∙ ap (λ x. x ++ d.records) start))
received-snoc decompress (q ∷ ps) p rs d h e =
    let (d', tail, found, rest, split) =
      joined (decode_downlink decompress q) (received decompress ps) rs h in
    let rest' = received-snoc decompress ps p tail d rest e in
    rw (found, rest', received)
      (ap some (sym (append_assoc d'.records tail d.records) ∙ ap (λ x. x ++ d.records) split))

module _ (compress : List ℕ → List ℕ) (decompress : List ℕ → ℕ → Option (List ℕ))
    (lossless : IsLossless compress decompress) where
  decode_downlink-parts :
      (packet z body : List ℕ) (ty u : ℕ)
      → 12 ≤ length packet
      → from_le (take 4 packet) ≡ ty
      → from_le (take 8 (drop 4 packet)) ≡ u
      → drop 12 packet ≡ z
      → decompress z 16384 ≡ some body
      → decode_downlink decompress packet
        ≡ some (record {
          msg_type = ty;
          frame = from_u64 u;
          records = all_records read_downlink (from_bytes body);
        })
  unfolding decode_downlink
  decode_downlink-parts packet z body ty u enough kind number rest opened =
      let long : ltb (length packet) 12 ≡ false = ground arith in
      rw (long, rest, opened, kind, number) refl

  pub decode_downlink-pack_frame :
      (ty : ℕ) (frame : FrameIndex) (body : List ℕ)
      → ty < 2 ^ 32
      → IsFrame frame
      → All IsByte body
      → 1 ≤ length body
      → length body ≤ 16384
      → decode_downlink decompress (pack_frame compress ty frame body)
        ≡ some (record {
          msg_type = ty;
          frame = frame;
          records = all_records read_downlink (from_bytes body);
        })
  unfolding pack_frame
  decode_downlink-pack_frame ty frame body ht hf hb pos small =
      let tail = to_le 8 (to_u64 frame) ++ compress body in
      let packet = to_le 4 ty ++ tail in
      let (back, range) = from_u64-to_u64 frame hf in
      let behind = drop-field 4 ty tail in
      rw back at (
        decode_downlink-parts packet (compress body) body ty (to_u64 frame)
          (omega (arith, length-field 4 ty tail, length-field 8 (to_u64 frame) (compress body)))
          (read-field 4 ty tail (omega arith))
          (ap (λ x. from_le (take 8 x)) behind
            ∙ read-field 8 (to_u64 frame) (compress body) (omega (arith, range)))
          (sym (drop-drop 8 4 packet)
            ∙ ap (drop 8) behind
            ∙ drop-field 8 (to_u64 frame) (compress body))
          (lossless body 16384 hb pos small))
