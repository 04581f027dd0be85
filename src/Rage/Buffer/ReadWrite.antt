-- ===== src/Rage/Buffer/ReadWrite.antt =====
-- `read_bits_single` and `write_bits_single` as operations on the field of bits at the cursor.
use baston.Prelude.{
  refl, ℕ, zero, suc, ◌+◌, ◌-◌, ◌*◌, ◌/◌, ◌%◌, ◌^◌, ◌≤◌, ◌≡◌, arith, List, length, All, leb, ltb,
  ◌&&◌, if◌then◌else◌, bit_and, true, ◌<◌, some, false, ◌∙◌, ap, sym, Bool,
}
use baston.Prelude.Bytes.{IsByte}
use baston.Prelude.Bits.{bit_and-one}
use baston.Rage.Buffer.Words.{word, read_loop-word, mod_digit}
use baston.Rage.Buffer.{
  MessageBuffer, effective_len, read_bits_single, write_bits_single, set_current_bit, bit_at,
  set_bit_at, write_loop,
}
use baston.Rage.Buffer.BitLaws.{length-set_bit_at, set_bit_at-IsByte, bit_at-set_bit_at}
use baston.Rage.Buffer.Bounds.{bit_and-one-lt, IsValid, write_loop-IsByte, length-write_loop}

-- Binary digit `e` of a number.
unfoldable pub digit : ℕ → ℕ → ℕ
digit v e = v / 2 ^ e % 2

digit_lem : (v e : ℕ) → bit_and (v / 2 ^ e) 1 ≡ digit v e
unfolding digit
digit_lem v e = bit_and-one (v / 2 ^ e)

-- The writing loop stores the low `n` bits of the value, most significant first.
bit_at-write_loop :
    (v n bit : ℕ) (bytes : List ℕ) (j : ℕ)
    → n ≤ 32
    → All IsByte bytes
    → bit + n ≤ length bytes * 8
    → bit_at (write_loop v n bit bytes) j
      ≡ (if leb bit j && ltb j (bit + n) then digit v (bit + n - 1 - j) else bit_at bytes j)
unfolding write_loop
bit_at-write_loop v zero bit bytes j small h fits = ground arith
bit_at-write_loop v (suc n) bit bytes j small h fits =
    let shift : n % 32 ≡ n = omega arith in
    let b = bit_and (v / 2 ^ n) 1 in
    let bytes' = set_bit_at bytes bit b in
    let rest =
      bit_at-write_loop v n (bit + 1) bytes' j (omega arith)
        (set_bit_at-IsByte bytes bit b h (bit_and-one-lt (v / 2 ^ n)))
        (omega (arith, length-set_bit_at bytes bit b)) in
    rw shift (
      ground (
        arith,
        rest,
        digit_lem v n,
        bit_at-set_bit_at bytes bit b j h (bit_and-one-lt (v / 2 ^ n)),
      ))

pub word_of_digits :
    (bytes : List ℕ) (v n bit : ℕ)
    → ((j : ℕ) → bit ≤ j → j < bit + n → bit_at bytes j ≡ digit v (bit + n - 1 - j))
    → word bytes bit n ≡ v % 2 ^ n
unfolding word
word_of_digits bytes v zero bit h = omega arith
word_of_digits bytes v (suc n) bit h =
    let top : bit_at bytes bit ≡ digit v n =
      h bit (omega arith) (omega arith) ∙ ap (digit v) (omega arith) in
    let rest : word bytes (bit + 1) n ≡ v % 2 ^ n =
      word_of_digits bytes v n (bit + 1)
        λ j p q. h j (omega arith) (omega arith) ∙ ap (digit v) (omega arith) in
    rw (top, rest) (unfold digit in sym (mod_digit v n))

pub word-write_loop :
    (v n bit : ℕ) (bytes : List ℕ)
    → n ≤ 32
    → All IsByte bytes
    → bit + n ≤ length bytes * 8
    → word (write_loop v n bit bytes) bit n ≡ v % 2 ^ n
word-write_loop v n bit bytes small h fits =
    word_of_digits _ v n bit λ j p q. ground (arith, bit_at-write_loop v n bit bytes j small h fits)

module _ (b : MessageBuffer) (v : IsValid b) (value len : ℕ) where
  -- A write of at most 32 bits stores the low bits of the value, most significant first, in the
  -- field at the cursor and moves the cursor behind it, if the field fits; every bit outside the
  -- field, the limit and the mode stay. If it does not fit, the write fails and changes nothing.
  pub write_bits_single_lem :
      effective_len b len ≤ 32
      → let n = effective_len b len in
        let w = write_bits_single b value len in
        (b.cur_bit + n ≤ b.max_bit
          → (w.1 ≡ true)
            × (w.0.cur_bit ≡ b.cur_bit + n)
            × (w.0.max_bit ≡ b.max_bit)
            × (w.0.length_hack ≡ b.length_hack)
            × ((j : ℕ)
                → bit_at w.0.bytes j ≡ (
                    if leb b.cur_bit j && ltb j (b.cur_bit + n)
                    then digit value (b.cur_bit + n - 1 - j)
                    else bit_at b.bytes j)))
        × (b.max_bit < b.cur_bit + n → w ≡ (b, false))
  unfolding write_bits_single
  write_bits_single_lem small = (
    λ fits. (
      ground arith,
      ground arith,
      ground arith,
      ground arith,
      λ j. ground (
        arith,
        bit_at-write_loop value (effective_len b len) b.cur_bit b.bytes j small v.all_bytes,
      ),
    ),
    λ over. ground arith,
  )

  -- What was written is read back: a read at the place of a successful write gives the value, cut
  -- to the width of the field, and leaves the buffer as the write left it.
  pub read_bits_single-write_bits_single :
      effective_len b len ≤ 32
      → b.cur_bit + effective_len b len ≤ b.max_bit
      → let w = write_bits_single b value len in
        (w.1 ≡ true)
        × (read_bits_single (set_current_bit w.0 b.cur_bit) len
            ≡ (w.0, some (value % 2 ^ effective_len b len)))
  unfolding write_bits_single read_bits_single set_current_bit effective_len
  read_bits_single-write_bits_single small fits = ground (
    arith,
    read_loop-word (write_loop value (effective_len b len) b.cur_bit b.bytes) (effective_len b len)
        b.cur_bit 0 0,
    word-write_loop value (effective_len b len) b.cur_bit b.bytes small v.all_bytes,
  )

word_congr :
    (xs ys : List ℕ) (n bit : ℕ)
    → ((j : ℕ) → bit ≤ j → j < bit + n → bit_at xs j ≡ bit_at ys j)
    → word xs bit n ≡ word ys bit n
unfolding word
word_congr xs ys zero bit h = refl
word_congr xs ys (suc n) bit h = ground (
  arith,
  h bit (omega arith) (omega arith),
  word_congr xs ys n (bit + 1) (λ j p q. h j (omega arith) (omega arith)),
)

-- Two fields written one behind the other: the second write leaves the first field alone, and the
-- two are read back in order.
module _ (b : MessageBuffer) (v : IsValid b) (v₁ l₁ v₂ l₂ : ℕ) where
  abbrev first : MessageBuffer × Bool
  first = write_bits_single b v₁ l₁

  abbrev second : MessageBuffer × Bool
  second = write_bits_single first.0 v₂ l₂

  pub read_two-write_two :
      effective_len b l₁ ≤ 32
      → effective_len b l₂ ≤ 32
      → b.cur_bit + effective_len b l₁ + effective_len b l₂ ≤ b.max_bit
      → let middle = b.cur_bit + effective_len b l₁ in
        (first.1 ≡ true)
        × (second.1 ≡ true)
        × (read_bits_single (set_current_bit second.0 b.cur_bit) l₁
            ≡ (set_current_bit second.0 middle, some (v₁ % 2 ^ effective_len b l₁)))
        × (read_bits_single (set_current_bit second.0 middle) l₂
            ≡ (second.0, some (v₂ % 2 ^ effective_len b l₂)))
  unfolding write_bits_single read_bits_single set_current_bit effective_len
  read_two-write_two small₁ small₂ fits =
      let n₁ = effective_len b l₁ in
      let n₂ = effective_len b l₂ in
      let once = write_loop v₁ n₁ b.cur_bit b.bytes in
      let twice = write_loop v₂ n₂ (b.cur_bit + n₁) once in
      let bytes : All IsByte once = write_loop-IsByte v₁ n₁ b.cur_bit b.bytes v.all_bytes in
      let room : b.cur_bit + n₁ + n₂ ≤ length once * 8 =
        omega (arith, length-write_loop v₁ n₁ b.cur_bit b.bytes, v.within) in
      let first_kept : word twice b.cur_bit n₁ ≡ word once b.cur_bit n₁ =
        word_congr twice once n₁ b.cur_bit λ j p q.
          ground (arith, bit_at-write_loop v₂ n₂ (b.cur_bit + n₁) once j small₂ bytes room) in
      let first_value : word once b.cur_bit n₁ ≡ v₁ % 2 ^ n₁ =
        word-write_loop v₁ n₁ b.cur_bit b.bytes small₁ v.all_bytes (omega (arith, v.within)) in
      let second_value : word twice (b.cur_bit + n₁) n₂ ≡ v₂ % 2 ^ n₂ =
        word-write_loop v₂ n₂ (b.cur_bit + n₁) once small₂ bytes room in
      (
        ground arith,
        ground arith,
        ground (arith, read_loop-word twice n₁ b.cur_bit 0 0),
        ground (arith, read_loop-word twice n₂ (b.cur_bit + n₁) 0 0),
      )
