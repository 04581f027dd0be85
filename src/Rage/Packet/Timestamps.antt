-- ===== src/Rage/Packet/Timestamps.antt =====
-- Where the writer puts its time stamps.
use baston.Prelude.{
  refl, ℕ, ◌+◌, ◌≤◌, ◌<◌, ◌≡◌, arith, true, false, List, length, ltb, if_true, if_false,
  length-append, ◌∙◌,
}
use baston.Rage.Buffer.{data_length}
use baston.Rage.Clone.{OutboundClone, write_outbound_clone}
use baston.Rage.Packet.{
  PackedWriter, work_buf, emit, flush_fragment, maybe_flush, ensure_timestamp, write_clone,
  clone_bits, worst_case, bytes_of_bits, flush_budget_bytes,
}

-- The size that a batch might have with the record behind it.
abbrev pub projected : PackedWriter → ℕ → ℕ
projected w bits = worst_case (data_length w.buf + bytes_of_bits bits)

module _ (compress : List ℕ → List ℕ) (time : ℕ) (c : OutboundClone) (w : PackedWriter) where
  ensure_timestamp_had : w.had_time ≡ true → ensure_timestamp compress time w ≡ w
  unfolding ensure_timestamp
  ensure_timestamp_had h = if_true w.had_time w _ h

  maybe_flush_fits :
      (bits : ℕ) → projected w bits ≤ flush_budget_bytes → maybe_flush compress bits w ≡ w
  unfolding maybe_flush
  maybe_flush_fits bits h =
      if_false (ltb flush_budget_bytes (projected w bits)) (flush_fragment compress w) w
        (ground arith)

  maybe_flush_over :
      (bits : ℕ)
      → flush_budget_bytes < projected w bits
      → 0 < data_length w.buf
      → maybe_flush compress bits w
        ≡ record (emit compress false w) { buf = work_buf w.length_hack; had_time = false }
  unfolding maybe_flush flush_fragment
  maybe_flush_over bits h some_data = if_true _ _ w (ground arith) ∙ if_false _ w _ (ground arith)

  emit_one : length (emit compress false w).packets ≡ length w.packets + 1
  unfolding emit
  emit_one = length-append w.packets _

  -- A clone record on a writer that has its time stamp. While the record fits in the budget, it is
  -- put behind what the batch holds and nothing is sent. If it does not and the batch is not empty,
  -- the batch is sent as one packet, and the next begins with the record itself: no time stamp
  -- stands in front of it, and the writer takes the batch for one without a time stamp.
  pub write_clone_lem :
      w.had_time ≡ true
      → let w' = write_clone compress time c w in
        (projected w (clone_bits c) ≤ flush_budget_bytes
          → (w'.buf ≡ (write_outbound_clone c w.buf).0)
            × (w'.packets ≡ w.packets)
            × (w'.had_time ≡ true))
        × (flush_budget_bytes < projected w (clone_bits c)
            → 0 < data_length w.buf
            → (w'.buf ≡ (write_outbound_clone c (work_buf w.length_hack)).0)
              × (w'.packets ≡ (emit compress false w).packets)
              × (length w'.packets ≡ length w.packets + 1)
              × (w'.had_time ≡ false))
  unfolding write_clone
  write_clone_lem had =
      let bits = clone_bits c in
      let timed = ensure_timestamp_had had in
      (
        λ fits. rw (timed, maybe_flush_fits bits fits) (refl, refl, had),
        λ over some_data.
            rw (timed, maybe_flush_over bits over some_data) (refl, refl, emit_one, refl),
      )
