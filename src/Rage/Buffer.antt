-- ===== src/Rage/Buffer.antt =====
-- The bit-level message buffer, crates/baston-protocol/src/rage/buffer.rs. A byte is a number
-- below 256, a `u32` one below 2 ^ 32, an `i32` its bit pattern. A method that takes `&mut self`
-- returns the new buffer beside its result.
pub mod Monad
pub mod BitLaws
pub mod Words
pub mod ReadWrite
pub mod Bounds
pub mod Copy
pub mod Blobs
pub mod Signed
pub mod Fields
use baston.Prelude.{
  ℕ, zero, suc, ◌+◌, ◌-◌, ◌*◌, ◌/◌, ◌%◌, ◌^◌, ◌<◌, min, bit_and, bit_or, bit_xor, Bool, true, false,
  ◌&&◌, ◌||◌, Option, none, some, List, leb, ltb, ◌==◌, if◌then◌else◌, length, get_or, set,
  replicate, take, drop, ◌++◌,
}

pub record MessageBuffer : Type 0 where
  pub bytes : List ℕ
  pub cur_bit : ℕ
  pub max_bit : ℕ
  pub length_hack : Bool

-- `MessageBuffer::new`
unfoldable pub new : ℕ → MessageBuffer
new size = record { bytes = replicate size 0; cur_bit = 0; max_bit = size * 8; length_hack = false }

unfoldable pub from_bytes : List ℕ → MessageBuffer
from_bytes bytes = record {
  bytes = bytes;
  cur_bit = 0;
  max_bit = length bytes * 8;
  length_hack = false;
}

unfoldable pub from_bits : List ℕ → ℕ → MessageBuffer
from_bits bytes bit_len = record {
  bytes = bytes;
  cur_bit = 0;
  max_bit = min bit_len (length bytes * 8);
  length_hack = false;
}

unfoldable pub with_length_hack : MessageBuffer → Bool → MessageBuffer
with_length_hack b enabled = record b { length_hack = enabled }

unfoldable pub effective_len : MessageBuffer → ℕ → ℕ
effective_len b len = if (len == 13) && b.length_hack then 16 else len

-- `(byte >> (7 - bit % 8)) & 1`
unfoldable pub bit_of : ℕ → ℕ → ℕ
bit_of byte bit = bit_and (byte / 2 ^ (7 - bit % 8)) 1

-- `(byte & !(1 << shift)) | (b << shift)` on a `u8`, with `shift = 7 - bit % 8`
unfoldable pub put_bit : ℕ → ℕ → ℕ → ℕ
put_bit byte bit b =
    let shift = 7 - bit % 8 in bit_or (bit_and byte (255 - 2 ^ shift)) (b * 2 ^ shift)

unfoldable pub bit_at : List ℕ → ℕ → ℕ
bit_at bytes bit = bit_of (get_or bytes (bit / 8) 0) bit

unfoldable pub set_bit_at : List ℕ → ℕ → ℕ → List ℕ
set_bit_at bytes bit b = set bytes (bit / 8) (put_bit (get_or bytes (bit / 8) 0) bit b)

-- The loop of `read_bits_single` with `n` rounds left.
unfoldable pub read_loop : List ℕ → ℕ → ℕ → ℕ → ℕ
read_loop bytes zero bit value = value
read_loop bytes (suc n) bit value =
    read_loop bytes n (bit + 1) (bit_or (value * 2 % 2 ^ 32) (bit_at bytes bit))

unfoldable pub read_bits_single : MessageBuffer → ℕ → MessageBuffer × Option ℕ
read_bits_single b len =
    let n = effective_len b len in
    let b' = record b { cur_bit = b.cur_bit + n } in
    if ltb b.max_bit (b.cur_bit + n)
    then (b', none)
    else (b', some (read_loop b.bytes n b.cur_bit 0))

-- The loop of `write_bits_single`: with `n + 1` rounds left, `length - 1 - i` is `n`. A field wider
-- than 32 bits fails the debug assertion; without it, the shift of a `u32` takes its width modulo 32.
unfoldable pub write_loop : ℕ → ℕ → ℕ → List ℕ → List ℕ
write_loop value zero bit bytes = bytes
write_loop value (suc n) bit bytes =
    write_loop value n (bit + 1) (set_bit_at bytes bit (bit_and (value / 2 ^ (n % 32)) 1))

unfoldable pub write_bits_single : MessageBuffer → ℕ → ℕ → MessageBuffer × Bool
write_bits_single b value len =
    let n = effective_len b len in
    if ltb b.max_bit (b.cur_bit + n)
    then (b, false)
    else (record b { bytes = write_loop value n b.cur_bit b.bytes; cur_bit = b.cur_bit + n }, true)

unfoldable pub read_bit : MessageBuffer → MessageBuffer × ℕ
read_bit b =
    let b' = record b { cur_bit = b.cur_bit + 1 } in
    if leb (length b.bytes) (b.cur_bit / 8) then (b', 0) else (b', bit_at b.bytes b.cur_bit)

unfoldable pub bit_of_bool : Bool → ℕ
bit_of_bool true = 1
bit_of_bool false = 0

unfoldable pub write_bit : MessageBuffer → Bool → MessageBuffer × Bool
write_bit b bit = if leb (length b.bytes) (b.cur_bit / 8) then (b, false) else (
  record b { bytes = set_bit_at b.bytes b.cur_bit (bit_of_bool bit); cur_bit = b.cur_bit + 1 },
  true,
)

-- The bit-by-bit loop of `copy_bits` with `n` rounds left.
unfoldable pub copy_loop : List ℕ → ℕ → ℕ → ℕ → List ℕ → List ℕ
copy_loop src zero dest_bit src_bit dest = dest
copy_loop src (suc n) dest_bit src_bit dest =
    copy_loop src n (dest_bit + 1) (src_bit + 1) (set_bit_at dest dest_bit (bit_at src src_bit))

-- `dest[db..db + n].copy_from_slice(&src[sb..sb + n])`
unfoldable pub copy_bytes : List ℕ → List ℕ → ℕ → ℕ → ℕ → List ℕ
copy_bytes dest src n db sb = take db dest ++ (take n (drop sb src) ++ drop (db + n) dest)

unfoldable pub copy_bits : List ℕ → List ℕ → ℕ → ℕ → ℕ → List ℕ
copy_bits dest src len dest_bit src_bit =
    if (dest_bit % 8 == 0) && (src_bit % 8 == 0) && (len % 8 == 0)
    then copy_bytes dest src (len / 8) (dest_bit / 8) (src_bit / 8)
    else copy_loop src len dest_bit src_bit dest

-- `read_bits`: the buffer, and the bytes of `dest` with the success flag.
unfoldable pub read_bits : MessageBuffer → List ℕ → ℕ → MessageBuffer × (List ℕ × Bool)
read_bits b dest len =
    if len == 0
    then (b, (dest, true))
    else if ltb b.max_bit (b.cur_bit + len)
    then (b, (dest, false))
    else (record b { cur_bit = b.cur_bit + len }, (copy_bits dest b.bytes len 0 b.cur_bit, true))

unfoldable pub write_bits : MessageBuffer → List ℕ → ℕ → MessageBuffer × Bool
write_bits b src len = if ltb b.max_bit (b.cur_bit + len) then (b, false) else (
  record b { bytes = copy_bits b.bytes src len b.cur_bit 0; cur_bit = b.cur_bit + len },
  true,
)

unfoldable pub require_length : MessageBuffer → ℕ → Bool
require_length b len = ltb (b.cur_bit + len) b.max_bit

unfoldable pub align : MessageBuffer → MessageBuffer
align b = let r = b.cur_bit % 8 in if r == 0 then b else record b { cur_bit = b.cur_bit + (8 - r) }

unfoldable pub set_current_bit : MessageBuffer → ℕ → MessageBuffer
set_current_bit b bit = record b { cur_bit = bit }

unfoldable pub is_at_end : MessageBuffer → Bool
is_at_end b = leb b.max_bit b.cur_bit

-- Bytes touched so far: the cursor rounded up to a byte.
unfoldable pub data_length : MessageBuffer → ℕ
data_length b = b.cur_bit / 8 + (if b.cur_bit % 8 == 0 then 0 else 1)
