-- ===== src/Rage/ObjectIds/RoundTrip.antt =====
-- Grants of object ids are decoded to the ids that were granted.
use baston.Udp.Laws.{drop-field, length-field, read-field}
use baston.Prelude.Bytes.{to_le, from_le}
use baston.Prelude.{
  append_assoc, drop-drop, length-drop, refl, ap, sym, ◌∙◌, ℕ, zero, suc, ◌+◌, ◌-◌, ◌%◌, ◌^◌, ◌≤◌,
  ◌<◌, ◌≡◌, arith, Bool-cases, inl, inr, ◌==◌, some, List, [], ◌∷◌, ◌++◌, All, length, take, drop,
}
use baston.Rage.ObjectIds.{
  msg_object_ids, entries_bytes, build_payload, build_object_ids, get_u16, parse_entries,
  parse_object_ids, u16, extend, compress_loop, compress, emit, decompress_loop, decompress,
}

abbrev pub IsU16 : ℕ → Type 0
IsU16 n = n < 2 ^ 16

-- What `extend` takes off the list is what `emit` produces for the same size.
record IsRun (prev size : ℕ) (ids : List ℕ) (run : ℕ × ℕ × List ℕ) : Type 0 where
  more : ℕ
  counted : run.0 ≡ size + more
  produced : (emit more (u16 (prev + 1))).0 ++ run.2 ≡ ids
  behind : (emit more (u16 (prev + 1))).1 ≡ u16 (run.1 + 1)
  shorter : length run.2 + more ≤ length ids
  last_fits : IsU16 run.1
  rest_fits : All IsU16 run.2

extend-IsRun :
    (ids : List ℕ) (prev size : ℕ)
    → size + length ids < 2 ^ 16
    → IsU16 prev
    → All IsU16 ids
    → IsRun prev size ids (extend prev size ids)
unfolding extend emit
extend-IsRun [] prev size room hp h = record {
  more = 0;
  counted = omega arith;
  produced = refl;
  behind = refl;
  shorter = omega arith;
  last_fits = hp;
  rest_fits = h;
}
extend-IsRun (id ∷ ids) prev size room hp h = elim (Bool-cases (id == u16 (prev + 1))) [
  | inr e ↦
      rw (e, extend)
        (record {
          more = 0;
          counted = omega arith;
          produced = refl;
          behind = refl;
          shorter = omega arith;
          last_fits = hp;
          rest_fits = h;
        })
  | inl e ↦
      let wrap : u16 (size + 1) ≡ size + 1 = omega arith in
      let next : id ≡ u16 (prev + 1) = ground arith in
      let rest = extend-IsRun ids id (u16 (size + 1)) (omega arith) h.0 h.1 in
      rw (e, extend)
        (record {
          more = suc rest.more;
          counted = omega (arith, rest.counted);
          produced = rw (← next) (ap (◌∷◌ id) rest.produced);
          behind = rw (← next) rest.behind;
          shorter = omega (arith, rest.shorter);
          last_fits = rest.last_fits;
          rest_fits = rest.rest_fits;
        })
]

decompress_loop-compress_loop :
    (fuel after : ℕ) (ids : List ℕ)
    → length ids ≤ fuel
    → length ids < 2 ^ 16
    → after ≤ 2 ^ 16
    → All IsU16 ids
    → decompress_loop (u16 after) (compress_loop fuel after ids) ≡ ids
unfolding compress_loop decompress_loop emit
decompress_loop-compress_loop zero after [] f l a h = refl
decompress_loop-compress_loop zero after (id ∷ ids) f l a h = absurd (omega arith)
decompress_loop-compress_loop (suc fuel) after [] f l a h = refl
decompress_loop-compress_loop (suc fuel) after (id ∷ ids) f l a h =
    let run = extend-IsRun ids id 0 (omega arith) h.0 h.1 in
    let found = extend id 0 ids in
    let start : u16 (u16 after + u16 (u16 (id + 2 ^ 17 - 1 - after) + 1)) ≡ id =
      omega (arith, h.0) in
    let size : found.0 + 1 ≡ suc run.more = omega (arith, run.counted) in
    let rest =
      decompress_loop-compress_loop fuel (found.1 + 1) found.2 (omega (arith, run.shorter))
        (omega (arith, run.shorter)) (omega (arith, run.last_fits)) run.rest_fits in
    rw (start, size, run.behind, rest) (ap (◌∷◌ id) run.produced)

record IsEntry (e : ℕ × ℕ) : Type 0 where
  gap : IsU16 e.0
  size : IsU16 e.1

compress_loop-entries :
    (fuel after : ℕ) (ids : List ℕ)
    → length ids < 2 ^ 16
    → All IsU16 ids
    → All IsEntry (compress_loop fuel after ids)
      × (length (compress_loop fuel after ids) ≤ length ids)
unfolding compress_loop
compress_loop-entries zero after ids l h = (tt, omega arith)
compress_loop-entries (suc fuel) after [] l h = (tt, omega arith)
compress_loop-entries (suc fuel) after (id ∷ ids) l h =
    let run = extend-IsRun ids id 0 (omega arith) h.0 h.1 in
    let found = extend id 0 ids in
    let (entries, count) =
      compress_loop-entries fuel (found.1 + 1) found.2 (omega (arith, run.shorter)) run.rest_fits in
    (
      (record { gap = omega arith; size = omega (arith, run.counted, run.shorter) }, entries),
      omega (arith, count, run.shorter),
    )

off_four : (off : ℕ) → off + 4 ≡ off + 2 + 2
off_four off = omega arith

-- A 16-bit field where the payload goes on with it.
get_u16-field :
    (payload : List ℕ) (off v : ℕ) (rest : List ℕ)
    → drop off payload ≡ to_le 2 v ++ rest
    → IsU16 v
    → get_u16 payload off ≡ some v
unfolding get_u16
get_u16-field payload off v rest here h =
    let room : length payload - off ≡ 2 + length rest =
      sym (length-drop off payload) ∙ ap length here ∙ length-field 2 v rest in
    let value : from_le (take 2 (drop off payload)) ≡ v =
      rw here (read-field 2 v rest (omega arith)) in
    ground arith

drop-next :
    (payload : List ℕ) (off v : ℕ) (rest : List ℕ)
    → drop off payload ≡ to_le 2 v ++ rest
    → drop (off + 2) payload ≡ rest
drop-next payload off v rest here =
    sym (drop-drop 2 off payload) ∙ ap (drop 2) here ∙ drop-field 2 v rest

parse_entries-bytes :
    (payload : List ℕ) (es : List (ℕ × ℕ)) (off : ℕ) (rest : List ℕ)
    → All IsEntry es
    → drop off payload ≡ entries_bytes es ++ rest
    → parse_entries payload (length es) off ≡ some es
unfolding parse_entries entries_bytes
parse_entries-bytes payload [] off rest h here = refl
parse_entries-bytes payload ((gap, size) ∷ es) off rest h here =
    let tail = entries_bytes es ++ rest in
    let at_gap : drop off payload ≡ to_le 2 gap ++ (to_le 2 size ++ tail) =
      here
      ∙ append_assoc (to_le 2 gap) _ rest
      ∙ ap (◌++◌ (to_le 2 gap)) (append_assoc (to_le 2 size) _ rest) in
    let at_size : drop (off + 2) payload ≡ to_le 2 size ++ tail =
      drop-next payload off gap _ at_gap in
    let at_rest : drop (off + 4) payload ≡ tail =
      ap (λ k. drop k payload) (off_four off) ∙ drop-next payload (off + 2) size tail at_size in
    rw
      (
        get_u16-field payload off gap _ at_gap h.0.gap,
        get_u16-field payload (off + 2) size tail at_size h.0.size,
        parse_entries-bytes payload es (off + 4) rest h.1 at_rest,
      )
      refl

-- Any ids that are granted, in any order and fewer than 2 ^ 16 of them, are what the receiver
-- decodes from the packet's payload, whatever bytes follow it.
pub parse_object_ids-build_object_ids :
    (ids : List ℕ) (rest : List ℕ)
    → All IsU16 ids
    → length ids < 2 ^ 16
    → (payload : List ℕ) × (build_object_ids ids ≡ to_le 4 msg_object_ids ++ payload)
      × (parse_object_ids (payload ++ rest) ≡ some ids)
unfolding build_object_ids parse_object_ids build_payload compress decompress
parse_object_ids-build_object_ids ids rest h few =
    let entries = compress_loop (length ids) 0 ids in
    let (all, count) = compress_loop-entries (length ids) 0 ids few h in
    let tail = entries_bytes entries ++ rest in
    let whole : (to_le 2 (length entries) ++ entries_bytes entries) ++ rest
        ≡ to_le 2 (length entries) ++ tail =
      append_assoc (to_le 2 (length entries)) _ rest in
    let number : length entries % 2 ^ 16 ≡ length entries = omega (arith, count) in
    let decoded =
      decompress_loop-compress_loop (length ids) 0 ids (omega arith) few (omega arith) h in
    (
      build_payload ids,
      refl,
      rw (number, whole)
          (ground (
            arith,
            read-field 2 (length entries) tail (omega (arith, count)),
            length-field 2 (length entries) tail,
            parse_entries-bytes (to_le 2 (length entries) ++ tail) entries 2 rest all
                (drop-field 2 (length entries) tail),
            decoded,
          )),
    )
