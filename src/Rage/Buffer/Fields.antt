-- ===== src/Rage/Buffer/Fields.antt =====
-- Sequences of writes and the sequences of reads that take them back. A writer of `k` bits and a
-- reader are related when the reader, at the place of the write in any buffer that holds the same
-- bits there, gives one value.
use baston.Prelude.{
  refl, ℕ, ◌+◌, ◌^◌, ◌≤◌, ◌<◌, ◌≡◌, arith, Bool, true, false, ◌&&◌, some, List, length, ltb, ◌==◌,
  if◌then◌else◌, sym, ◌∙◌, ap, ◌-◌,
}
use baston.Rage.Buffer.{
  MessageBuffer, effective_len, read_bits_single, write_bits_single, set_current_bit, bit_at,
}
use native.Mathlib.Nat.{mod-eq_of_lt}
use baston.Rage.Buffer.Words.{word, read_loop-word}
use baston.Rage.Buffer.ReadWrite.{digit, word_of_digits, write_bits_single_lem}
use baston.Rage.Buffer.Bounds.{IsValid, write_bits_single-IsValid, length-write_loop}
use baston.Rage.Buffer.Monad.{Reader, Writer, ◌>>=◌, ◌>>◌, pure, and_then}

-- The write of `len` bits of a value, and their read.
abbrev pub put : ℕ → ℕ → Writer
put value len b = write_bits_single b value len

abbrev pub get : ℕ → Reader ℕ
get len b = read_bits_single b len

abbrev pub put_nothing : Writer
put_nothing b = (b, true)

-- The bits that a field of `len` bits takes.
abbrev pub width : Bool → ℕ → ℕ
width hack len = if (len == 13) && hack then 16 else len

-- What a successful write of `k` bits does to the buffer, beside the bits that it stores.
pub record Written (b b' : MessageBuffer) (k : ℕ) : Type 0 where
  pub valid : IsValid b'
  pub cursor : b'.cur_bit ≡ b.cur_bit + k
  pub limit : b'.max_bit ≡ b.max_bit
  pub inside : b'.cur_bit ≤ b'.max_bit
  pub mode : b'.length_hack ≡ b.length_hack
  pub size : length b'.bytes ≡ length b.bytes
  pub kept : (j : ℕ) → j < b.cur_bit → bit_at b'.bytes j ≡ bit_at b.bytes j

-- A buffer that stands at bit `start` and holds the bits of `bytes` in the `k` places from there.
pub record Holds (hack : Bool) (bytes : List ℕ) (start k : ℕ) (f : MessageBuffer) : Type 0 where
  pub valid : IsValid f
  pub mode : f.length_hack ≡ hack
  pub cursor : f.cur_bit ≡ start
  pub room : start + k ≤ f.max_bit
  pub same : (j : ℕ) → start ≤ j → j < start + k → bit_at f.bytes j ≡ bit_at bytes j

abbrev pub ReadBack : {A : Type 0} → Bool → Writer → ℕ → Reader A → A → Type 0
ReadBack hack w k r a =
    (b : MessageBuffer)
    → IsValid b
    → b.length_hack ≡ hack
    → b.cur_bit + k ≤ b.max_bit
    → ((w b).1 ≡ true)
      × Written b (w b).0 k
      × ((f : MessageBuffer)
          → Holds hack (w b).0.bytes b.cur_bit k f
          → r f ≡ (set_current_bit f (b.cur_bit + k), some a))

and_then-true : (m : MessageBuffer × Bool) (f : Writer) → m.1 ≡ true → and_then m f ≡ f m.0
and_then-true (b, true) f h = refl
and_then-true (b, false) f h = absurd (ground arith)

pub Written-trans :
    (b b' b'' : MessageBuffer) (k k' : ℕ)
    → Written b b' k
    → Written b' b'' k'
    → Written b b'' (k + k')
Written-trans b b' b'' k k' p q = record {
  valid = q.valid;
  cursor = omega (arith, p.cursor, q.cursor);
  limit = q.limit ∙ p.limit;
  inside = q.inside;
  mode = q.mode ∙ p.mode;
  size = q.size ∙ p.size;
  kept = λ j h. q.kept j (omega (arith, p.cursor)) ∙ p.kept j h;
}

pub ReadBack-nothing : {A : Type 0} (hack : Bool) (a : A) → ReadBack hack put_nothing 0 (pure a) a
unfolding set_current_bit
ReadBack-nothing hack a b v m fits = (
  refl,
  record {
    valid = v;
    cursor = omega arith;
    limit = refl;
    inside = omega arith;
    mode = refl;
    size = refl;
    kept = λ j h. refl;
  },
  λ f held. let same : b.cur_bit + 0 ≡ f.cur_bit = omega (arith, held.cursor) in rw same refl,
)

pub ReadBack-bind :
    {A B : Type 0} (hack : Bool) (w w' : Writer) (k k' : ℕ) (r : Reader A) (g : A → Reader B)
    (a : A) (c : B)
    → ReadBack hack w k r a
    → ReadBack hack w' k' (g a) c
    → ReadBack hack (w >> w') (k + k') (r >>= g) c
unfolding set_current_bit
ReadBack-bind hack w w' k k' r g a c h h' b v m fits =
    let (done, first, back) = h b v m (omega arith) in
    let b' = (w b).0 in
    let (done', second, back') =
      h' b' first.valid (first.mode ∙ m) (omega (arith, first.cursor, first.limit)) in
    rw (and_then-true (w b) w' done) (
      done',
      Written-trans b b' (w' b').0 k k' first second,
      λ f held.
          let one = back f (record {
            valid = held.valid;
            mode = held.mode;
            cursor = held.cursor;
            room = omega (arith, held.room);
            same =
                λ j l u. held.same j l (omega arith) ∙ second.kept j (omega (arith, first.cursor));
          }) in
          let next : b'.cur_bit ≡ b.cur_bit + k = first.cursor in
          let two = back' (set_current_bit f (b.cur_bit + k)) (record {
            valid = record { all_bytes = held.valid.all_bytes; within = held.valid.within };
            mode = held.mode;
            cursor = sym next;
            room = omega (arith, held.room);
            same = λ j l u. held.same j (omega arith) (omega arith);
          }) in
          let behind : b'.cur_bit + k' ≡ b.cur_bit + (k + k') = omega arith in
          rw one (rw behind at two),
    )

length-write :
    (b : MessageBuffer) (value len : ℕ)
    → length (write_bits_single b value len).0.bytes ≡ length b.bytes
unfolding write_bits_single
length-write b value len =
    ground (arith, length-write_loop value (effective_len b len) b.cur_bit b.bytes)

effective_len-width :
    (b : MessageBuffer) (hack : Bool) (len : ℕ)
    → b.length_hack ≡ hack
    → effective_len b len ≡ width hack len
unfolding effective_len
effective_len-width b hack len m = rw m refl

-- A read of the field whose bits are those of the value.
get-digits :
    (hack : Bool) (value len start : ℕ) (f : MessageBuffer) (bytes : List ℕ)
    → width hack len ≤ 32
    → value < 2 ^ width hack len
    → Holds hack bytes start (width hack len) f
    → ((j : ℕ)
        → start ≤ j
        → j < start + width hack len
        → bit_at bytes j ≡ digit value (start + width hack len - 1 - j))
    → get len f ≡ (set_current_bit f (start + width hack len), some value)
unfolding read_bits_single set_current_bit
get-digits hack value len start f bytes small range held digits =
    let n = width hack len in
    let eff : effective_len f len ≡ n = effective_len-width f hack len held.mode in
    let stored : word f.bytes start n ≡ value =
      word_of_digits f.bytes value n start (λ j l u. held.same j l u ∙ digits j l u)
      ∙ mod-eq_of_lt range in
    let room : ltb f.max_bit (start + n) ≡ false = ground (arith, held.room) in
    let read = read_loop-word f.bytes n start 0 0 (omega arith) (omega arith) in
    rw (eff, held.cursor, room)
      (ap (λ v. (record f { cur_bit = start + n }, some v)) (omega (arith, read, stored)))

-- One field, and what the reader makes of its value.
pub ReadBack-field :
    (hack : Bool) (value len : ℕ)
    → width hack len ≤ 32
    → value < 2 ^ width hack len
    → ReadBack hack (put value len) (width hack len) (get len) value
ReadBack-field hack value len small range b v m fits =
    let n = width hack len in
    let eff : effective_len b len ≡ n = effective_len-width b hack len m in
    let (done, cursor, limit, mode, bits) =
      rw eff at ((write_bits_single_lem b v value len (omega (arith, eff, small))).0) fits in
    (
      done,
      record {
        valid = write_bits_single-IsValid b v value len;
        cursor = cursor;
        limit = limit;
        inside = omega (arith, cursor, limit);
        mode = mode;
        size = length-write b value len;
        kept = λ j h. ground (arith, bits j);
      },
      λ f held.
          get-digits hack value len b.cur_bit f _ small range held λ j l u. ground (arith, bits j),
    )

-- A reader whose value is passed on.
pub ReadBack-map :
    {A B : Type 0} (hack : Bool) (w : Writer) (k : ℕ) (r : Reader A) (f : A → B) (a : A)
    → ReadBack hack w k r a
    → ReadBack hack w k (r >>= λ x. pure (f x)) (f a)
ReadBack-map hack w k r f a h b v m fits =
    let (done, written, back) = h b v m fits in (done, written, λ g held. rw (back g held) refl)

pub width-le : (hack : Bool) (n : ℕ) → n ≤ 32 → width hack n ≤ 32
width-le true n h = ground arith
width-le false n h = ground arith

-- The reader at the place of the write, in the buffer that the write leaves.
pub ReadBack-here :
    {A : Type 0} (hack : Bool) (w : Writer) (k : ℕ) (r : Reader A) (a : A)
    → ReadBack hack w k r a
    → (b : MessageBuffer) → IsValid b
    → b.length_hack ≡ hack
    → b.cur_bit + k ≤ b.max_bit
    → ((w b).1 ≡ true) × (r (set_current_bit (w b).0 b.cur_bit) ≡ ((w b).0, some a))
unfolding set_current_bit
ReadBack-here hack w k r a h b v m fits =
    let (done, written, back) = h b v m fits in
    let w' = (w b).0 in
    let read = back (set_current_bit w' b.cur_bit) (record {
      valid = record { all_bytes = written.valid.all_bytes; within = written.valid.within };
      mode = written.mode ∙ m;
      cursor = refl;
      room = omega (arith, written.limit);
      same = λ j l u. refl;
    }) in
    (done, rw (sym written.cursor) at read)
