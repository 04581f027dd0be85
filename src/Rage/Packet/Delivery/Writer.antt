-- ===== src/Rage/Packet/Delivery/Writer.antt =====
-- The packed writer delivers every record, in order, over however many fragments it takes.
use baston.Prelude.Bytes.{IsByte}
use baston.Prelude.{
  refl, ℕ, ◌+◌, ◌%◌, ◌^◌, ◌≤◌, ◌<◌, ◌≡◌, arith, Bool, true, false, Option, some, List, [], ◌∷◌,
  ◌++◌, ltb, ◌==◌, ap, sym, ◌∙◌, length, All, All-take, map, append_assoc, append-nil, bit_and,
  length-replicate, ==_iff, if-cases,
}
use baston.Prelude.Bits.{bit_and-ones}
use baston.Rage.Buffer.{new, with_length_hack, data_length}
use baston.Rage.Buffer.Bounds.{IsValid, new-IsValid}
use baston.Rage.Buffer.Fields.{ReadBack}
use baston.Rage.Buffer.Monad.{Writer}
use baston.Rage.Clone.{
  DownlinkRecord, clone, remove, timestamp, OutboundClone, write_outbound_clone,
  write_outbound_remove, write_outbound_timestamp,
}
use baston.Rage.Clone.RoundTrip.{
  IsOutbound, as_downlink, clone_width, next_downlink, ReadBack-clone, ReadBack-remove,
  ReadBack-timestamp,
}
use baston.Rage.Packet.{
  FrameIndex, PackedWriter, new_writer, work_buf, emit, flush_fragment, maybe_flush,
  ensure_timestamp, write_clone, write_remove, finish, clone_bits, worst_case, bytes_of_bits,
  flush_budget_bytes,
}
use baston.Rage.Packet.Frames.{IsFrame}
use baston.Rage.Packet.Stream.{Carries, Carries-nothing, Carries-snoc}
use baston.Rage.Packet.Decode.{
  closed_bytes, all_records-closed, closed_bytes-length, closed-Written, data_length_lem,
}
use baston.Rage.Packet.Delivery.{
  Call, clones, removes, sent, IsCall, without_timestamps, without_timestamps-append, IsLossless,
  received, received-snoc, decode_downlink-pack_frame, run,
}

-- The bits that a working buffer may be filled to between calls.
abbrev fill : ℕ
fill = 50000

-- The writer has sent and buffered these records, time stamps left out.
record Inv (decompress : List ℕ → ℕ → Option (List ℕ)) (w : PackedWriter) (rs : List DownlinkRecord)
    : Type 0 where
  done : List DownlinkRecord
  current : List DownlinkRecord
  split : without_timestamps (done ++ current) ≡ rs
  delivered : received decompress w.packets ≡ some done
  carried : Carries false w.buf current
  limit : w.buf.max_bit ≡ 131072
  size : length w.buf.bytes ≡ 16384
  filled : w.buf.cur_bit ≤ fill
  mode : w.length_hack ≡ false
  kind : w.msg_type < 2 ^ 32
  index : w.frame_index < 2 ^ 56

work_buf-facts :
    (hack : Bool)
    → IsValid (work_buf hack)
      × ((work_buf hack).length_hack ≡ hack)
      × ((work_buf hack).cur_bit ≡ 0)
      × ((work_buf hack).max_bit ≡ 131072)
      × (length (work_buf hack).bytes ≡ 16384)
unfolding work_buf with_length_hack
work_buf-facts hack =
    let v = new-IsValid 16384 in
    (
      record { all_bytes = v.all_bytes; within = v.within },
      refl,
      unfold new in refl,
      unfold new in refl,
      unfold new in length-replicate {A = ℕ} 16384 0,
    )

module _ (compress : List ℕ → List ℕ) (decompress : List ℕ → ℕ → Option (List ℕ))
    (lossless : IsLossless compress decompress) where
  -- Closing the batch sends its records.
  emit-received :
      (last : Bool) (w : PackedWriter) (rs : List DownlinkRecord) (inv : Inv decompress w rs)
      → received decompress (emit compress last w).packets ≡ some (inv.done ++ inv.current)
  unfolding emit
  emit-received last w rs inv =
      let b = w.buf in
      let fits : b.cur_bit + 3 ≤ b.max_bit = omega (arith, inv.filled, inv.limit) in
      let (counted, pos, small, _) =
        closed_bytes-length false b inv.carried.valid inv.carried.mode fits in
      let bytes : All IsByte (closed_bytes b) =
        All-take IsByte _ _
          (closed-Written false b inv.carried.valid inv.carried.mode fits).valid.all_bytes in
      let fragment = (w.fragment + 1) % 256 in
      let frame : FrameIndex = record {
        last_fragment = last;
        current_fragment = bit_and fragment 127;
        frame_index = w.frame_index;
      } in
      let frame_ok : IsFrame frame = record {
        fragment = omega (arith, bit_and-ones 7 fragment);
        index = inv.index;
      } in
      let decoded =
        decode_downlink-pack_frame compress decompress lossless w.msg_type frame (closed_bytes b)
          inv.kind frame_ok bytes (omega (arith, counted, pos))
          (omega (arith, counted, small, inv.size)) in
      let sent' = received-snoc decompress w.packets _ inv.done _ inv.delivered decoded in
      rw (all_records-closed b inv.current inv.carried fits) at sent'

  flush_fragment-Inv :
      (w : PackedWriter) (rs : List DownlinkRecord)
      → Inv decompress w rs
      → Inv decompress (flush_fragment compress w) rs
        × ((flush_fragment compress w).buf.cur_bit ≡ 0)
  unfolding flush_fragment
  flush_fragment-Inv w rs inv =
      let (valid, mode, start, limit, size) = work_buf-facts w.length_hack in
      if-cases (λ w'. Inv decompress w' rs × (w'.buf.cur_bit ≡ 0)) (data_length w.buf == 0) w _
        (λ e. (inv, omega (arith, data_length_lem w.buf, (==_iff _ 0).0 e)))
        λ e. (
          record {
            done = inv.done ++ inv.current;
            current = [];
            split = rw append-nil (inv.split);
            delivered = emit-received false w rs inv;
            carried = Carries-nothing false (work_buf w.length_hack) valid (mode ∙ inv.mode) start;
            limit = limit;
            size = size;
            filled = omega (arith, start);
            mode = unfold emit in inv.mode;
            kind = unfold emit in inv.kind;
            index = unfold emit in inv.index;
          },
          start,
        )

  -- Behind it, the batch is within the budget, whatever comes next.
  maybe_flush-Inv :
      (n : ℕ) (w : PackedWriter) (rs : List DownlinkRecord)
      → Inv decompress w rs
      → Inv decompress (maybe_flush compress n w) rs
        × ((maybe_flush compress n w).buf.cur_bit ≤ 9000)
  unfolding maybe_flush worst_case
  maybe_flush-Inv n w rs inv =
      if-cases (λ w'. Inv decompress w' rs × (w'.buf.cur_bit ≤ 9000))
        (ltb flush_budget_bytes (worst_case (data_length w.buf + bytes_of_bits n))) _ w
        (λ e. let (inv', start) = flush_fragment-Inv w rs inv in (inv', omega (arith, start)))
        λ e. (inv, ground (arith, data_length_lem w.buf))

  -- A record that is written behind it is delivered.
  put-Inv :
      (w : PackedWriter) (rs : List DownlinkRecord) (put : Writer) (k : ℕ) (r : DownlinkRecord)
      (had_time : Bool)
      → Inv decompress w rs
      → w.buf.cur_bit ≤ 9000
      → k ≤ 40000
      → ReadBack false put k next_downlink r
      → Inv decompress
          (record w { buf = (put w.buf).0; had_time = had_time })
          (rs ++ without_timestamps (r ∷ []))
  put-Inv w rs put k r had_time inv low small h =
      let (carried, written) =
        Carries-snoc false w.buf inv.current put k r inv.carried h (omega (arith, inv.limit)) in
      record {
        done = inv.done;
        current = inv.current ++ (r ∷ []);
        split =
            ap without_timestamps (sym (append_assoc inv.done inv.current (r ∷ [])))
            ∙ without_timestamps-append (inv.done ++ inv.current) (r ∷ [])
            ∙ ap (λ x. x ++ without_timestamps (r ∷ [])) inv.split;
        delivered = inv.delivered;
        carried = carried;
        limit = written.limit ∙ inv.limit;
        size = written.size ∙ inv.size;
        filled = omega (arith, written.cursor);
        mode = inv.mode;
        kind = inv.kind;
        index = inv.index;
      }

  ensure_timestamp-Inv :
      (time : ℕ) (w : PackedWriter) (rs : List DownlinkRecord)
      → time < 2 ^ 64
      → Inv decompress w rs
      → Inv decompress (ensure_timestamp compress time w) rs
  unfolding ensure_timestamp
  ensure_timestamp-Inv time w rs h inv =
      if-cases (λ w'. Inv decompress w' rs) w.had_time w _ (λ e. inv)
        λ e.
          let (inv', low) = maybe_flush-Inv 67 w rs inv in
          rw append-nil at (
            put-Inv (maybe_flush compress 67 w) rs (write_outbound_timestamp time) 67
              (timestamp time) true inv' low (omega arith) (ReadBack-timestamp false time h))

  write_clone-Inv :
      (time : ℕ) (c : OutboundClone) (w : PackedWriter) (rs : List DownlinkRecord)
      → time < 2 ^ 64
      → IsOutbound false c
      → Inv decompress w rs
      → Inv decompress (write_clone compress time c w) (rs ++ (clone (as_downlink c) ∷ []))
  unfolding write_clone
  write_clone-Inv time c w rs h ok inv =
      let w' = maybe_flush compress (clone_bits c) (ensure_timestamp compress time w) in
      let (inv', low) =
        maybe_flush-Inv (clone_bits c) (ensure_timestamp compress time w) rs
          (ensure_timestamp-Inv time w rs h inv) in
      put-Inv w' rs (write_outbound_clone c) (clone_width false c) (clone (as_downlink c))
        w'.had_time inv' low (ground (arith, ok.short)) (ReadBack-clone false c ok)

  write_remove-Inv :
      (force_steal : Bool) (object_id uniqifier : ℕ) (w : PackedWriter) (rs : List DownlinkRecord)
      → object_id < 2 ^ 13
      → uniqifier < 2 ^ 16
      → Inv decompress w rs
      → Inv decompress
          (write_remove compress force_steal object_id uniqifier w)
          (rs ++ (remove force_steal object_id uniqifier ∷ []))
  unfolding write_remove
  write_remove-Inv force_steal object_id uniqifier w rs ho hu inv =
      let w' = maybe_flush compress 36 w in
      let (inv', low) = maybe_flush-Inv 36 w rs inv in
      put-Inv w' rs (write_outbound_remove force_steal object_id uniqifier) 33 _ w'.had_time inv'
        low (omega arith) (ReadBack-remove false force_steal object_id uniqifier ho hu)

  run-Inv :
      (calls : List Call) (w : PackedWriter) (rs : List DownlinkRecord)
      → All IsCall calls
      → Inv decompress w rs
      → Inv decompress (run compress calls w) (rs ++ map sent calls)
  unfolding run
  run-Inv [] w rs h inv = rw append-nil inv
  run-Inv (clones time c ∷ calls) w rs h inv =
      rw (append_assoc rs (clone (as_downlink c) ∷ []) (map sent calls)) at (
        run-Inv calls (write_clone compress time c w) _ h.1
          (write_clone-Inv time c w rs h.0.0 h.0.1 inv))
  run-Inv (removes force_steal object_id uniqifier ∷ calls) w rs h inv =
      rw (append_assoc rs (remove force_steal object_id uniqifier ∷ []) (map sent calls)) at (
        run-Inv calls (write_remove compress force_steal object_id uniqifier w) _ h.1
          (write_remove-Inv force_steal object_id uniqifier w rs h.0.0 h.0.1 inv))

  new_writer-Inv :
      (ty frame_index : ℕ)
      → ty < 2 ^ 32
      → frame_index < 2 ^ 56
      → Inv decompress (new_writer ty frame_index false) []
  unfolding new_writer
  new_writer-Inv ty frame_index ht hf =
      let (valid, mode, start, limit, size) = work_buf-facts false in
      record {
        done = [];
        current = [];
        split = refl;
        delivered = refl;
        carried = Carries-nothing false (work_buf false) valid mode start;
        limit = limit;
        size = size;
        filled = omega (arith, start);
        mode = refl;
        kind = ht;
        index = hf;
      }

  -- Without the wide-id mode, every packet that a writer hands out for any sequence of calls within
  -- the ranges of the format is decoded, and the records of all packets, time stamps left out, are
  -- those of the calls, in their order, if LZ4 gives back what it compressed.
  pub received-finish :
      (ty frame_index : ℕ) (calls : List Call)
      → ty < 2 ^ 32
      → frame_index < 2 ^ 56
      → All IsCall calls
      → (out : List DownlinkRecord) × (received decompress
            (finish compress (run compress calls (new_writer ty frame_index false)))
          ≡ some out)
        × (without_timestamps out ≡ map sent calls)
  unfolding finish
  received-finish ty frame_index calls ht hf h =
      let w = run compress calls (new_writer ty frame_index false) in
      let inv =
        run-Inv calls (new_writer ty frame_index false) [] h
          (new_writer-Inv ty frame_index ht hf) in
      (inv.done ++ inv.current, emit-received true w (map sent calls) inv, inv.split)
