-- ===== src/Rage/Buffer/Copy.antt =====
-- `copy_bits`: the byte-wise fast path and the loop over bits copy the same thing.
use baston.Prelude.Bits.{every, every-holds}
use baston.Prelude.{
  ℕ, zero, suc, ◌+◌, ◌-◌, ◌*◌, ◌/◌, ◌%◌, ◌≤◌, ◌<◌, ◌≡◌, refl, arith, List, true, length, All, leb,
  ltb, ◌&&◌, if◌then◌else◌, get_or, take, drop, length-append, get_or-append, get_or-take,
  get_or-drop, length-drop, length-take-le, get_or_ext, All-append, All-take, All-drop, ◌∙◌, ◌++◌,
  ◌==◌, ==_iff, sym, ap, All-get_or,
}
use baston.Prelude.Bytes.{IsByte}
use baston.Rage.Buffer.{bit_of, bit_at, set_bit_at, copy_loop, copy_bytes, copy_bits}
use baston.Rage.Buffer.BitLaws.{
  bit_at-lt, bit_of-mod, length-set_bit_at, set_bit_at-IsByte, bit_at-set_bit_at,
}

pub length-copy_loop :
    (src : List ℕ) (n d s : ℕ) (dest : List ℕ) → length (copy_loop src n d s dest) ≡ length dest
unfolding copy_loop
length-copy_loop src zero d s dest = refl
length-copy_loop src (suc n) d s dest =
    length-copy_loop src n (d + 1) (s + 1) _ ∙ length-set_bit_at dest d _

pub copy_loop-IsByte :
    (src : List ℕ) (n d s : ℕ) (dest : List ℕ)
    → All IsByte dest
    → All IsByte (copy_loop src n d s dest)
unfolding copy_loop
copy_loop-IsByte src zero d s dest h = h
copy_loop-IsByte src (suc n) d s dest h =
    copy_loop-IsByte src n (d + 1) (s + 1) _ (set_bit_at-IsByte dest d _ h (bit_at-lt src s))

-- The loop over bits puts the source field into the destination field and touches nothing else.
pub bit_at-copy_loop :
    (src : List ℕ) (n d s : ℕ) (dest : List ℕ) (j : ℕ)
    → All IsByte dest
    → d + n ≤ length dest * 8
    → bit_at (copy_loop src n d s dest) j
      ≡ (if leb d j && ltb j (d + n) then bit_at src (s + (j - d)) else bit_at dest j)
unfolding copy_loop
bit_at-copy_loop src zero d s dest j h fits = ground arith
bit_at-copy_loop src (suc n) d s dest j h fits =
    let dest' = set_bit_at dest d (bit_at src s) in
    let rest =
      bit_at-copy_loop src n (d + 1) (s + 1) dest' j
        (set_bit_at-IsByte dest d _ h (bit_at-lt src s))
        (omega (arith, length-set_bit_at dest d (bit_at src s))) in
    ground (arith, rest, bit_at-set_bit_at dest d (bit_at src s) j h (bit_at-lt src s))

module _ (dest src : List ℕ) (n db sb : ℕ) (dest_fits : db + n ≤ length dest)
    (src_fits : sb + n ≤ length src) where
  length-middle : length (take n (drop sb src)) ≡ n
  length-middle = length-take-le n _ (omega (arith, length-drop sb src))

  length-copy_bytes : length (copy_bytes dest src n db sb) ≡ length dest
  unfolding copy_bytes
  length-copy_bytes = omega (
    arith,
    length-append (take db dest) (take n (drop sb src) ++ drop (db + n) dest),
    length-append (take n (drop sb src)) (drop (db + n) dest),
    length-take-le db dest,
    length-middle,
    length-drop (db + n) dest,
  )

  get_or-copy_bytes :
      (k : ℕ)
      → get_or (copy_bytes dest src n db sb) k 0
        ≡ (if leb db k && ltb k (db + n) then get_or src (sb + (k - db)) 0 else get_or dest k 0)
  unfolding copy_bytes
  get_or-copy_bytes k = ground (
    arith,
    get_or-append (take db dest) (take n (drop sb src) ++ drop (db + n) dest) k 0,
    get_or-append (take n (drop sb src)) (drop (db + n) dest) (k - db) 0,
    length-take-le db dest,
    length-middle,
    get_or-take db dest k 0,
    get_or-take n (drop sb src) (k - db) 0,
    get_or-drop sb src (k - db) 0,
    get_or-drop (db + n) dest (k - db - n) 0,
  )

  copy_bytes-IsByte : All IsByte dest → All IsByte src → All IsByte (copy_bytes dest src n db sb)
  unfolding copy_bytes
  copy_bytes-IsByte hd hs = All-append IsByte (take db dest) _ (All-take IsByte db dest hd) (
      All-append IsByte (take n (drop sb src)) _ (All-take IsByte n _ (All-drop IsByte sb src hs))
        (All-drop IsByte (db + n) dest hd))

-- The number of the eight bits of a byte.
byte_of_bits : ℕ → ℕ
byte_of_bits x =
    bit_of x 0 * 128
    + bit_of x 1 * 64
    + bit_of x 2 * 32
    + bit_of x 3 * 16
    + bit_of x 4 * 8
    + bit_of x 5 * 4
    + bit_of x 6 * 2
    + bit_of x 7

byte_table : every 256 (λ x. byte_of_bits x == x) ≡ true
unfolding every byte_of_bits bit_of
byte_table = refl

byte_of_bits_lem : (x : ℕ) → x < 256 → byte_of_bits x ≡ x
byte_of_bits_lem x h = (==_iff _ x).0 (every-holds 256 _ x byte_table h)

-- A bit of a byte string by its place in its byte.
bit_at_place :
    (bytes : List ℕ) (k t : ℕ) → t < 8 → bit_at bytes (k * 8 + t) ≡ bit_of (get_or bytes k 0) t
unfolding bit_at
bit_at_place bytes k t h =
    let quotient : (k * 8 + t) / 8 ≡ k = omega arith in
    let place : (k * 8 + t) % 8 ≡ t = omega arith in
    rw quotient (sym (bit_of-mod (get_or bytes k 0) (k * 8 + t)) ∙ ap (bit_of _) place)

-- Byte strings of one length with the same bits are equal.
pub bytes_ext :
    (xs ys : List ℕ)
    → All IsByte xs
    → All IsByte ys
    → length xs ≡ length ys
    → ((j : ℕ) → bit_at xs j ≡ bit_at ys j)
    → xs ≡ ys
bytes_ext xs ys hx hy e h = get_or_ext 0 xs ys e λ k p.
    let x = get_or xs k 0 in
    let y = get_or ys k 0 in
    let same : (t : ℕ) → t < 8 → bit_of x t ≡ bit_of y t =
      λ t q. sym (bit_at_place xs k t q) ∙ h (k * 8 + t) ∙ bit_at_place ys k t q in
    let sums : byte_of_bits x ≡ byte_of_bits y =
      unfold byte_of_bits in
      omega (
        arith,
        same 0 (omega arith),
        same 1 (omega arith),
        same 2 (omega arith),
        same 3 (omega arith),
        same 4 (omega arith),
        same 5 (omega arith),
        same 6 (omega arith),
        same 7 (omega arith),
      ) in
    sym (byte_of_bits_lem x (All-get_or IsByte xs k 0 hx (omega arith)))
    ∙ sums
    ∙ byte_of_bits_lem y (All-get_or IsByte ys k 0 hy (omega arith))

-- A bit of the byte-wise copy.
bit_at-copy_bytes :
    (dest src : List ℕ) (n db sb j : ℕ)
    → db + n ≤ length dest
    → sb + n ≤ length src
    → bit_at (copy_bytes dest src n db sb) j ≡ (
        if leb (db * 8) j && ltb j (db * 8 + n * 8)
        then bit_at src (sb * 8 + (j - db * 8))
        else bit_at dest j)
unfolding bit_at
bit_at-copy_bytes dest src n db sb j hd hs = ground (
  arith,
  get_or-copy_bytes dest src n db sb hd hs (j / 8),
  bit_of-mod (get_or src (sb + (j / 8 - db)) 0) j,
  bit_of-mod (get_or src (sb + (j / 8 - db)) 0) (sb * 8 + (j - db * 8)),
)

module _ (dest src : List ℕ) (len d s : ℕ) (hd : All IsByte dest) (hs : All IsByte src)
    (dest_fits : d + len ≤ length dest * 8) (src_fits : s + len ≤ length src * 8) where
  aligned :
      d % 8 ≡ 0
      → s % 8 ≡ 0
      → len % 8 ≡ 0
      → copy_bytes dest src (len / 8) (d / 8) (s / 8) ≡ copy_loop src len d s dest
  aligned ed es el =
      let dest_ok : d / 8 + len / 8 ≤ length dest = omega arith in
      let src_ok : s / 8 + len / 8 ≤ length src = omega arith in
      bytes_ext _ _ (copy_bytes-IsByte dest src _ _ _ dest_ok src_ok hd hs)
        (copy_loop-IsByte src len d s dest hd)
        (length-copy_bytes dest src _ _ _ dest_ok src_ok ∙ sym (length-copy_loop src len d s dest))
        λ j. ground (
          arith,
          bit_at-copy_bytes dest src (len / 8) (d / 8) (s / 8) j dest_ok src_ok,
          bit_at-copy_loop src len d s dest j hd dest_fits,
        )

  -- The byte-wise fast path of `copy_bits` computes what its loop over bits computes, whenever
  -- both fields lie inside their byte strings.
  pub copy_bits-copy_loop : copy_bits dest src len d s ≡ copy_loop src len d s dest
  unfolding copy_bits
  copy_bits-copy_loop = ground (arith, aligned)

  pub bit_at-copy_bits :
      (j : ℕ)
      → bit_at (copy_bits dest src len d s) j
        ≡ (if leb d j && ltb j (d + len) then bit_at src (s + (j - d)) else bit_at dest j)
  bit_at-copy_bits j = rw copy_bits-copy_loop (bit_at-copy_loop src len d s dest j hd dest_fits)

  pub length-copy_bits : length (copy_bits dest src len d s) ≡ length dest
  length-copy_bits = rw copy_bits-copy_loop (length-copy_loop src len d s dest)

  pub copy_bits-IsByte : All IsByte (copy_bits dest src len d s)
  copy_bits-IsByte = rw copy_bits-copy_loop (copy_loop-IsByte src len d s dest hd)
