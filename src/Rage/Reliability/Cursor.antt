-- ===== src/Rage/Reliability/Cursor.antt =====
-- The little-endian cursor of crates/baston-protocol/src/rage/reliability.rs.
use baston.Prelude.Parser.{Parser, ◌>>=◌, pure}
use baston.Prelude.Bytes.{to_le, from_le, length-to_le, from_le-to_le}
use baston.Prelude.{
  append_assoc, take-append, refl, ℕ, ◌+◌, ◌-◌, ◌^◌, ◌≤◌, ◌<◌, ◌≡◌, arith, none, some, List, [],
  ◌∷◌, ◌++◌, leb, if◌then◌else◌, length, take, drop, sym, length-drop, ◌∙◌, ap, length-append,
  drop-drop, drop-append, take-append, append-nil,
}

pub record Cursor : Type 0 where
  pub buf : List ℕ
  pub off : ℕ

abbrev pub start : List ℕ → Cursor
start buf = record { buf = buf; off = 0 }

abbrev pub Reader : Type 0 → Type 0
Reader A = Parser Cursor A

-- `from_le_bytes(buf.get(off..off + n)?)`
unfoldable pub read_le : ℕ → Reader ℕ
read_le n c =
    if leb (c.off + n) (length c.buf)
    then some (from_le (take n (drop c.off c.buf)), record c { off = c.off + n })
    else none

-- `*self.buf.get(self.off)?`
unfoldable pub u8 : Reader ℕ
u8 c = elim (drop c.off c.buf) [ [] ↦ none | b ∷ _ ↦ some (b, record c { off = c.off + 1 }) ]

abbrev pub u16 : Reader ℕ
u16 = read_le 2

abbrev pub u64 : Reader ℕ
u64 = read_le 8

-- The cursor stands before `rest`.
pub record At (c : Cursor) (rest : List ℕ) : Type 0 where
  pub unread : drop c.off c.buf ≡ rest
  pub inside : c.off ≤ length c.buf

-- The reader takes exactly `bytes`, whatever follows, and gives `a`.
abbrev pub Reads : {A : Type 0} → Reader A → List ℕ → A → Type 0
Reads {A} m bytes a =
    (c : Cursor) (rest : List ℕ)
    → At c (bytes ++ rest)
    → (c' : Cursor) × (m c ≡ some (a, c')) × At c' rest

pub Reads-pure : {A : Type 0} (a : A) → Reads (pure a) [] a
Reads-pure a c rest at = (c, refl, at)

pub Reads-bind :
    {A B : Type 0} (m : Reader A) (f : A → Reader B) (x y : List ℕ) (a : A) (b : B)
    → Reads m x a
    → Reads (f a) y b
    → Reads (m >>= f) (x ++ y) b
Reads-bind m f x y a b hm hf c rest at =
    let (c', first, at') = hm c (y ++ rest) (rw append_assoc at at) in
    let (c'', second, at'') = hf c' rest at' in (c'', rw first second, at'')

At-advance :
    (c : Cursor) (bytes rest : List ℕ)
    → At c (bytes ++ rest)
    → At (record c { off = c.off + length bytes }) rest
      × (c.off + length bytes ≤ length c.buf)
      × (take (length bytes) (drop c.off c.buf) ≡ bytes)
At-advance c bytes rest at =
    let total : length c.buf - c.off ≡ length bytes + length rest =
      sym (length-drop c.off c.buf) ∙ ap length at.unread ∙ length-append bytes rest in
    let room : c.off + length bytes ≤ length c.buf = omega (arith, at.inside) in
    (
      record {
        unread =
            sym (drop-drop (length bytes) c.off c.buf)
            ∙ ap (drop (length bytes)) at.unread
            ∙ drop-append bytes rest;
        inside = room;
      },
      room,
      rw (at.unread) (take-append bytes rest),
    )

pub Reads-le : (n v : ℕ) → v < 256 ^ n → Reads (read_le n) (to_le n v) v
unfolding read_le
Reads-le n v h c rest at =
    let size = length-to_le n v in
    let (at', room, bytes) = rw size at (At-advance c (to_le n v) rest at) in
    let value : from_le (take n (drop c.off c.buf)) ≡ v = rw bytes (from_le-to_le n v h) in
    (record c { off = c.off + n }, ground arith, at')

pub Reads-u8 : (v : ℕ) → Reads u8 (v ∷ []) v
unfolding u8
Reads-u8 v c rest at =
    let (at', room, bytes) = At-advance c (v ∷ []) rest at in
    (record c { off = c.off + 1 }, rw (at.unread, u8), at')

-- The last read of a block, behind which nothing more is taken.
pub Reads-last :
    {A B : Type 0} (m : Reader A) (f : A → Reader B) (x : List ℕ) (a : A) (b : B)
    → Reads m x a
    → Reads (f a) [] b
    → Reads (m >>= f) x b
Reads-last m f x a b hm hf = rw append-nil at (Reads-bind m f x [] a b hm hf)
