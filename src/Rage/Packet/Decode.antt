-- ===== src/Rage/Packet/Decode.antt =====
-- The body of a fragment is decoded to the records that its buffer carries.
use baston.Prelude.Bytes.{IsByte}
use baston.Prelude.{
  refl, ℕ, zero, suc, ◌+◌, ◌*◌, ◌/◌, ◌≤◌, ◌<◌, ◌≡◌, arith, Bool, true, false, Option, none, some,
  List, [], ◌∷◌, ltb, Bool-cases, inl, inr, ap, sym, ◌∙◌, length, take, get_or, get_or-take,
  length-take-le, All-take,
}
use baston.Rage.Buffer.{
  MessageBuffer, set_current_bit, read_bits_single, effective_len, is_at_end, from_bytes, bit_at,
  data_length,
}
use baston.Rage.Buffer.Bounds.{IsValid, from_bytes-IsValid}
use baston.Rage.Buffer.Monad.{fail}
use baston.Rage.Buffer.Fields.{get, ReadBack, ReadBack-field, Written, Holds}
use baston.Rage.Clone.{DownlinkRecord, read_downlink, write_end}
use baston.Rage.Clone.RoundTrip.{next_downlink}
use baston.Rage.Packet.{records, all_records}
use baston.Rage.Packet.Stream.{Reads, Carries, Holds-front, Holds-behind}
use baston.Rage.Packet.Progress.{Advances-next, Advances-read_downlink}

next_at_end : (f : MessageBuffer) → is_at_end f ≡ true → (next_downlink f).1 ≡ none
unfolding is_at_end read_bits_single effective_len
next_at_end f h = let over : ltb f.max_bit (f.cur_bit + 3) ≡ true = ground arith in rw over refl

not_at_end :
    (f g : MessageBuffer) (r : DownlinkRecord) → next_downlink f ≡ (g, some r) → is_at_end f ≡ false
not_at_end f g r h = elim (Bool-cases (is_at_end f)) [
  | inr e ↦ e
  | inl e ↦
      let stopped : ◌≡◌ {A = Option DownlinkRecord} none (some r) =
        sym (next_at_end f e) ∙ ap (λ p. p.1) h in
      absurd (ground arith)
]

-- Each record takes three bits or more.
Reads-length :
    (f : MessageBuffer) (rs : List DownlinkRecord) (f' : MessageBuffer)
    → Reads f rs f'
    → f.cur_bit + length rs ≤ f'.cur_bit
Reads-length f [] f' h = omega (arith, ap (λ b. b.cur_bit) h)
Reads-length f (r ∷ rs) f' (g, next, rest) = omega (
  arith,
  ap (λ p. p.0.cur_bit) next,
  (Advances-next read_downlink Advances-read_downlink).step f,
  Reads-length g rs f' rest,
)

records-Reads :
    (n : ℕ) (f : MessageBuffer) (rs : List DownlinkRecord) (f' : MessageBuffer)
    → Reads f rs f'
    → (next_downlink f').1 ≡ none
    → length rs ≤ n
    → records read_downlink n f ≡ rs
unfolding records
records-Reads zero f [] f' h stop fits = refl
records-Reads zero f (r ∷ rs) f' h stop fits = absurd (omega arith)
records-Reads (suc n) f [] f' h stop fits =
    let stop' : (next_downlink f).1 ≡ none = rw h stop in
    elim (Bool-cases (is_at_end f)) [ inl e ↦ rw e refl | inr e ↦ rw (e, stop') refl ]
records-Reads (suc n) f (r ∷ rs) f' (g, next, rest) stop fits =
    let found : (next_downlink f).1 ≡ some r = ap (λ p. p.1) next in
    let moved : (next_downlink f).0 ≡ g = ap (λ p. p.0) next in
    rw (not_at_end f g r next, found, moved)
      (ap (◌∷◌ r) (records-Reads n g rs f' rest stop (omega arith)))

read_downlink-end : read_downlink 7 ≡ fail
unfolding read_downlink
read_downlink-end = refl

get_or-take-lt : (n : ℕ) (xs : List ℕ) (i : ℕ) → i < n → get_or (take n xs) i 0 ≡ get_or xs i 0
get_or-take-lt n xs i h = ground (arith, get_or-take n xs i 0)

pub bit_at-take : (n : ℕ) (xs : List ℕ) (j : ℕ) → j < n * 8 → bit_at (take n xs) j ≡ bit_at xs j
unfolding bit_at
bit_at-take n xs j h = rw (get_or-take-lt n xs (j / 8) (omega arith)) refl

-- The bytes of a buffer that was closed with `END`.
abbrev pub closed_bytes : MessageBuffer → List ℕ
closed_bytes b = let closed = (write_end b).0 in take (data_length closed) closed.bytes

ReadBack-end : (hack : Bool) → ReadBack hack write_end 3 (get 3) 7
unfolding write_end
ReadBack-end hack = ReadBack-field hack 7 3 (omega arith) (omega arith)

pub data_length_lem :
    (b : MessageBuffer) → (b.cur_bit ≤ data_length b * 8) × (data_length b * 8 ≤ b.cur_bit + 7)
unfolding data_length
data_length_lem b = ground arith

module _ (hack : Bool) (b : MessageBuffer) (v : IsValid b) (m : b.length_hack ≡ hack)
    (fits : b.cur_bit + 3 ≤ b.max_bit) where
  abbrev closed : MessageBuffer
  closed = (write_end b).0

  pub closed-Written : Written b closed 3
  closed-Written = (ReadBack-end hack b v m fits).1

  pub closed_bytes-length :
      (length (closed_bytes b) ≡ data_length closed)
      × (1 ≤ data_length closed)
      × (data_length closed ≤ length b.bytes)
      × (b.cur_bit + 3 ≤ data_length closed * 8)
  closed_bytes-length =
      let w = closed-Written in
      let used = data_length_lem closed in
      let inside : data_length closed ≤ length closed.bytes =
        omega (arith, used, w.cursor, w.size, v.within) in
      (
        length-take-le (data_length closed) closed.bytes inside,
        omega (arith, used, w.cursor),
        omega (arith, inside, w.size),
        omega (arith, used, w.cursor),
      )

  closed_bytes-Holds : Holds false closed.bytes 0 (b.cur_bit + 3) (from_bytes (closed_bytes b))
  unfolding from_bytes
  closed_bytes-Holds =
      let (counted, _, _, enough) = closed_bytes-length in
      record {
        valid =
            unfold from_bytes in
            from_bytes-IsValid (closed_bytes b)
              (All-take IsByte (data_length closed) closed.bytes closed-Written.valid.all_bytes);
        mode = refl;
        cursor = refl;
        room = omega (arith, counted, enough);
        same = λ j l u. bit_at-take (data_length closed) closed.bytes j (omega (arith, enough));
      }

module _ (b : MessageBuffer) (rs : List DownlinkRecord) (c : Carries false b rs)
    (fits : b.cur_bit + 3 ≤ b.max_bit) where
  -- The decoder's loop gives back the records that the buffer carried.
  pub all_records-closed : all_records read_downlink (from_bytes (closed_bytes b)) ≡ rs
  unfolding all_records
  all_records-closed =
      let f = from_bytes (closed_bytes b) in
      let held = closed_bytes-Holds false b c.valid c.mode fits in
      let written = closed-Written false b c.valid c.mode fits in
      let f' = set_current_bit f b.cur_bit in
      let read = c.back f (Holds-front false b (write_end b).0 3 f written held) in
      let got =
        (ReadBack-end false b c.valid c.mode fits).2 f' (Holds-behind false _ b.cur_bit 3 f held) in
      let ending : (next_downlink f').1 ≡ none = rw (got, read_downlink-end) refl in
      let reached : f'.cur_bit ≡ b.cur_bit = unfold set_current_bit in refl in
      records-Reads f.max_bit f rs f' read ending
        (omega (arith, Reads-length f rs f' read, held.room, held.cursor, reached))
