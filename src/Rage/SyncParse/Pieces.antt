-- ===== src/Rage/SyncParse/Pieces.antt =====
-- The pieces that a sync tree is written in, read back: presence bits, lengths and payloads.
use baston.Prelude.Bytes.{IsByte}
use baston.Prelude.{
  refl, ℕ, ◌+◌, ◌*◌, ◌/◌, ◌^◌, ◌≤◌, ◌<◌, ◌≡◌, arith, Bool, true, false, not, some, List, ltb, ◌==◌,
  Bool-cases, inl, inr, length, All, replicate, length-replicate, All-replicate, sym, ◌∙◌, ap,
}
use baston.Rage.Buffer.{
  MessageBuffer, set_current_bit, read_bit, write_bit, read_bits, write_bits_single,
  read_bits_single, copy_bits, bit_at, effective_len,
}
use baston.Rage.Buffer.Bounds.{IsValid}
use baston.Rage.Buffer.Copy.{bit_at-copy_bits, length-copy_bits, copy_bits-IsByte, bytes_ext}
use baston.Rage.Buffer.Fields.{put, width, width-le, Written, Holds, ReadBack-field}
use baston.Rage.Clone.{put_flag, get_flag}
use baston.Rage.Clone.Fields.{ReadBack-flag}

-- The limit of the buffer is the end of its bytes, and the cursor is not behind it.
abbrev pub IsFull : MessageBuffer → Type 0
IsFull b = (b.max_bit ≡ length b.bytes * 8) × (b.cur_bit ≤ b.max_bit)

pub Written-IsFull : (b b' : MessageBuffer) (k : ℕ) → Written b b' k → IsFull b → IsFull b'
Written-IsFull b b' k w h = (omega (arith, w.limit, w.size), w.inside)

-- Of what two writes in a row left, the part of the first, and that of the second.
pub Holds-first :
    (hack : Bool) (b b' b'' : MessageBuffer) (k k' : ℕ) (f : MessageBuffer)
    → Written b b' k
    → Written b' b'' k'
    → Holds hack b''.bytes b.cur_bit (k + k') f
    → Holds hack b'.bytes b.cur_bit k f
Holds-first hack b b' b'' k k' f first second held = record {
  valid = held.valid;
  mode = held.mode;
  cursor = held.cursor;
  room = omega (arith, held.room);
  same = λ j l u. held.same j l (omega arith) ∙ second.kept j (omega (arith, first.cursor));
}

pub Holds-second :
    (hack : Bool) (b b' b'' : MessageBuffer) (k k' : ℕ) (f : MessageBuffer)
    → Written b b' k
    → Holds hack b''.bytes b.cur_bit (k + k') f
    → Holds hack b''.bytes b'.cur_bit k' (set_current_bit f (b.cur_bit + k))
unfolding set_current_bit
Holds-second hack b b' b'' k k' f first held = record {
  valid = record { all_bytes = held.valid.all_bytes; within = held.valid.within };
  mode = held.mode;
  cursor = sym first.cursor;
  room = omega (arith, held.room, first.cursor);
  same = λ j l u. held.same j (omega (arith, first.cursor)) (omega (arith, first.cursor));
}

flag_parts :
    (f g : MessageBuffer) (flag : Bool)
    → get_flag f ≡ (g, some flag)
    → ((read_bit f).0 ≡ g) × (not ((read_bit f).1 == 0) ≡ flag)
unfolding get_flag
flag_parts f g flag h = (ap (λ p. p.0) h, cc (ap (λ p. p.1) h))

write_bit-room :
    (b : MessageBuffer) (flag : Bool)
    → IsFull b
    → (write_bit b flag).1 ≡ true
    → b.cur_bit + 1 ≤ b.max_bit
unfolding write_bit
write_bit-room b flag full h = ground arith

size-range : (hack : Bool) (size : ℕ) → size < 2 ^ 13 → size < 2 ^ width hack 13
size-range true size h = omega arith
size-range false size h = omega arith

module _ (hack : Bool) (b : MessageBuffer) (v : IsValid b) (m : b.length_hack ≡ hack)
    (full : IsFull b) where
  -- A presence bit.
  pub presence_back :
      (flag : Bool)
      → (write_bit b flag).1 ≡ true
      → Written b (write_bit b flag).0 1
        × ((f : MessageBuffer)
            → Holds hack (write_bit b flag).0.bytes b.cur_bit 1 f
            → ((read_bit f).0 ≡ set_current_bit f (b.cur_bit + 1))
              × (not ((read_bit f).1 == 0) ≡ flag))
  unfolding put_flag
  presence_back flag ok =
      let (_, written, back) = ReadBack-flag hack flag b v m (write_bit-room b flag full ok) in
      (written, λ f held. flag_parts f _ flag (back f held))

  put-room : (value : ℕ) → (put value 13 b).1 ≡ true → b.cur_bit + width hack 13 ≤ b.max_bit
  unfolding write_bits_single effective_len
  put-room value h = ground arith

  -- A length.
  pub size_back :
      (size : ℕ)
      → size < 2 ^ 13
      → (put size 13 b).1 ≡ true
      → Written b (put size 13 b).0 (width hack 13)
        × ((f : MessageBuffer)
            → Holds hack (put size 13 b).0.bytes b.cur_bit (width hack 13) f
            → read_bits_single f 13 ≡ (set_current_bit f (b.cur_bit + width hack 13), some size))
  size_back size h ok =
      let (_, written, back) =
        ReadBack-field hack size 13 (width-le hack 13 (omega arith)) (size-range hack size h) b v m
          (put-room size ok) in
      (written, back)

-- The bytes that the reader makes of a payload.
abbrev pub leaf_bytes : List ℕ → ℕ → List ℕ
leaf_bytes bytes bits = copy_bits (replicate ((bits + 7) / 8) 0) bytes bits 0 0

module _ (hack : Bool) (bytes : List ℕ) (all_bytes : All IsByte bytes) (bits : ℕ)
    (enough : bits ≤ length bytes * 8) where
  pub read_bits-leaf :
      (f : MessageBuffer) (start : ℕ)
      → IsValid f
      → f.cur_bit ≡ start
      → start + bits ≤ f.max_bit
      → ((j : ℕ) → j < bits → bit_at f.bytes (start + j) ≡ bit_at bytes j)
      → read_bits f (replicate ((bits + 7) / 8) 0) bits
        ≡ (set_current_bit f (start + bits), (leaf_bytes bytes bits, true))
  unfolding read_bits set_current_bit
  read_bits-leaf f start v here fits same =
      let fresh : List ℕ = replicate ((bits + 7) / 8) 0 in
      let zeros : All IsByte fresh = All-replicate IsByte ((bits + 7) / 8) 0 (omega arith) in
      let counted : length fresh ≡ (bits + 7) / 8 = length-replicate {A = ℕ} ((bits + 7) / 8) 0 in
      let fresh_fits : 0 + bits ≤ length fresh * 8 = omega (arith, counted) in
      let inside : start + bits ≤ length f.bytes * 8 = omega (arith, v.within) in
      let room : ltb f.max_bit (start + bits) ≡ false = ground arith in
      let here_bits =
        bit_at-copy_bits fresh f.bytes bits 0 start zeros v.all_bytes fresh_fits inside in
      let there_bits =
        bit_at-copy_bits fresh bytes bits 0 0 zeros all_bytes fresh_fits (omega arith) in
      let read : copy_bits fresh f.bytes bits 0 start ≡ leaf_bytes bytes bits =
        bytes_ext _ _
          (copy_bits-IsByte fresh f.bytes bits 0 start zeros v.all_bytes fresh_fits inside)
          (copy_bits-IsByte fresh bytes bits 0 0 zeros all_bytes fresh_fits (omega arith))
          (length-copy_bits fresh f.bytes bits 0 start zeros v.all_bytes fresh_fits inside
            ∙ sym (length-copy_bits fresh bytes bits 0 0 zeros all_bytes fresh_fits (omega arith)))
          λ j. ground (arith, here_bits j, there_bits j, same j) in
      elim (Bool-cases (bits == 0)) [
        | inr e ↦ rw (e, here, room, read) refl
        | inl e ↦
            let start_same : f.cur_bit ≡ start + bits = ground (arith, here) in
            let fresh_same : fresh ≡ leaf_bytes bytes bits =
              bytes_ext _ _ zeros
                (copy_bits-IsByte fresh bytes bits 0 0 zeros all_bytes fresh_fits (omega arith))
                (sym
                  (length-copy_bits fresh bytes bits 0 0 zeros all_bytes fresh_fits (omega arith)))
                λ j. ground (arith, there_bits j) in
            rw e (λ i. (record f { cur_bit = start_same i }, (fresh_same i, true)))
      ]
