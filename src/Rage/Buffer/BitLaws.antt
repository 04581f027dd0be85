-- ===== src/Rage/Buffer/BitLaws.antt =====
-- What `put_bit` and `set_bit_at` do to each bit, by a table over bytes.
use baston.Prelude.{
  ℕ, ◌-◌, ◌/◌, ◌%◌, ◌<◌, ◌≡◌, refl, arith, Bool, true, ◌&&◌, List, ltb, ◌==◌, if◌then◌else◌, length,
  get_or, length-set, get_or-set_self, get_or-set_ne, All, All-set, All-get_or, ◌^◌,
}
use baston.Prelude.Bits.{bit_and-one, every, every-holds}
use baston.Prelude.Bytes.{IsByte}
use baston.Rage.Buffer.{bit_of, put_bit, bit_at, set_bit_at}

abbrev put_row : ℕ → Bool
put_row x = every 8 λ s. every 2 λ b.
    ltb (put_bit x s b) 256
    && every 8 λ t. bit_of (put_bit x s b) t == (if s == t then b else bit_of x t)

put_table : every 256 put_row ≡ true
unfolding every put_bit bit_of
put_table = refl

put_facts :
    (x s b : ℕ)
    → x < 256
    → s < 8
    → b < 2
    → (ltb (put_bit x s b) 256
        && every 8 λ t. bit_of (put_bit x s b) t == (if s == t then b else bit_of x t))
      ≡ true
put_facts x s b hx hs hb =
    every-holds 2 _ b (every-holds 8 _ s (every-holds 256 _ x put_table hx) hs) hb

mod_mod8 : (i : ℕ) → i % 8 % 8 ≡ i % 8
mod_mod8 i = omega arith

put_bit-mod : (x i b : ℕ) → put_bit x (i % 8) b ≡ put_bit x i b
unfolding put_bit
put_bit-mod x i b = rw (mod_mod8 i)

pub bit_of-mod : (x i : ℕ) → bit_of x (i % 8) ≡ bit_of x i
unfolding bit_of
bit_of-mod x i = rw (mod_mod8 i)

-- Writing bit `i` of a byte leaves a byte, and changes no other bit of it.
put_bit-lt : (x i b : ℕ) → x < 256 → b < 2 → put_bit x i b < 256
put_bit-lt x i b hx hb =
    ground (arith, put_facts x (i % 8) b hx (omega arith) hb, put_bit-mod x i b)

bit_of-put_bit :
    (x i b j : ℕ)
    → x < 256
    → b < 2
    → bit_of (put_bit x i b) j ≡ (if i % 8 == j % 8 then b else bit_of x j)
bit_of-put_bit x i b j hx hb =
    let table =
      every-holds 8 (λ t. bit_of (put_bit x (i % 8) b) t == (if i % 8 == t then b else bit_of x t))
        (j % 8) (ground (arith, put_facts x (i % 8) b hx (omega arith) hb)) (omega arith) in
    ground (arith, table, put_bit-mod x i b, bit_of-mod (put_bit x i b) j, bit_of-mod x j)

pub bit_of-lt : (x i : ℕ) → bit_of x i < 2
unfolding bit_of
bit_of-lt x i = omega (arith, bit_and-one (x / 2 ^ (7 - i % 8)))

pub bit_at-lt : (bytes : List ℕ) (i : ℕ) → bit_at bytes i < 2
unfolding bit_at
bit_at-lt bytes i = bit_of-lt _ i

pub length-set_bit_at : (bytes : List ℕ) (i b : ℕ) → length (set_bit_at bytes i b) ≡ length bytes
unfolding set_bit_at
length-set_bit_at bytes i b = length-set bytes (i / 8) _

pub set_bit_at-IsByte :
    (bytes : List ℕ) (i b : ℕ) → All IsByte bytes → b < 2 → All IsByte (set_bit_at bytes i b)
unfolding set_bit_at
set_bit_at-IsByte bytes i b h hb =
    All-set IsByte bytes (i / 8) _ h
      (put_bit-lt _ i b (All-get_or IsByte bytes (i / 8) 0 h (omega arith)) hb)

-- A bit write inside the bytes stores the bit and touches no other.
pub bit_at-set_bit_at :
    (bytes : List ℕ) (i b j : ℕ)
    → All IsByte bytes
    → b < 2
    → i / 8 < length bytes
    → bit_at (set_bit_at bytes i b) j ≡ (if i == j then b else bit_at bytes j)
unfolding bit_at set_bit_at
bit_at-set_bit_at bytes i b j h hb inside = ground (
  arith,
  get_or-set_self bytes (i / 8) (put_bit (get_or bytes (i / 8) 0) i b) 0 inside,
  get_or-set_ne bytes (i / 8) (j / 8) (put_bit (get_or bytes (i / 8) 0) i b) 0,
  bit_of-put_bit (get_or bytes (i / 8) 0) i b j (All-get_or IsByte bytes (i / 8) 0 h (omega arith))
      hb,
)
