-- ===== src/Rage/ObjectIds.antt =====
-- Object-id grants, crates/baston-protocol/src/rage/object_ids.rs: the run-length list of ids.
-- Arithmetic on `u16` wraps, as in a build without overflow checks; with them, `ids[i - 1] + 1`
-- panics where 65535 is followed by another id, which no ascending list has.
pub mod RoundTrip
use baston.Udp.{hash_rage_string, codes}
use baston.Prelude.Bytes.{to_le, from_le}
use baston.Prelude.{
  ℕ, zero, suc, ◌+◌, ◌-◌, ◌%◌, ◌^◌, ◌==◌, Bool, Option, none, some, ◌>>=◌, List, [], ◌∷◌, ◌++◌,
  if◌then◌else◌, length, leb, ltb, take, drop,
}

abbrev pub u16 : ℕ → ℕ
u16 n = n % 2 ^ 16

unfoldable pub ids_per_request : Bool → ℕ
ids_per_request big_mode = if big_mode then 6 else 32

-- The inner loop of `compress`: the run that goes on behind `prev`. The size of the run, the last
-- id of it, and the ids behind it.
unfoldable pub extend : ℕ → ℕ → List ℕ → ℕ × ℕ × List ℕ
extend prev size [] = (size, prev, [])
extend prev size (id ∷ ids) =
    let run = extend id (u16 (size + 1)) ids in
    if id == u16 (prev + 1) then run else (size, prev, id ∷ ids)

-- The outer loop, one round for each run; `after` is the source's `last + 1`, so never negative.
-- `(ids[i] as i32 - 2 - last) as u16` is taken with `2 ^ 17` added first.
unfoldable pub compress_loop : ℕ → ℕ → List ℕ → List (ℕ × ℕ)
compress_loop zero after ids = []
compress_loop (suc fuel) after [] = []
compress_loop (suc fuel) after (id ∷ ids) =
    let run = extend id 0 ids in
    (u16 (id + 2 ^ 17 - 1 - after), run.0) ∷ compress_loop fuel (run.1 + 1) run.2

unfoldable pub compress : List ℕ → List (ℕ × ℕ)
compress ids = compress_loop (length ids) 0 ids

-- `n` consecutive ids from `last` on, and the id behind them.
unfoldable pub emit : ℕ → ℕ → List ℕ × ℕ
emit zero last = ([], last)
emit (suc n) last = let rest = emit n (u16 (last + 1)) in (last ∷ rest.0, rest.1)

unfoldable pub decompress_loop : ℕ → List (ℕ × ℕ) → List ℕ
decompress_loop last [] = []
decompress_loop last ((gap, size) ∷ entries) =
    let run = emit (size + 1) (u16 (last + u16 (gap + 1))) in run.0 ++ decompress_loop run.1 entries

unfoldable pub decompress : List (ℕ × ℕ) → List ℕ
decompress entries = decompress_loop 0 entries

unfoldable pub entries_bytes : List (ℕ × ℕ) → List ℕ
entries_bytes [] = []
entries_bytes ((gap, size) ∷ entries) = to_le 2 gap ++ (to_le 2 size ++ entries_bytes entries)

unfoldable pub msg_object_ids : ℕ
msg_object_ids = hash_rage_string (codes "msgObjectIds")

unfoldable pub msg_request_object_ids : ℕ
msg_request_object_ids = hash_rage_string (codes "msgRequestObjectIds")

-- `build_object_ids` behind the four bytes of the message type.
unfoldable pub build_payload : List ℕ → List ℕ
build_payload ids =
    let entries = compress ids in to_le 2 (length entries % 2 ^ 16) ++ entries_bytes entries

unfoldable pub build_object_ids : List ℕ → List ℕ
build_object_ids ids = to_le 4 msg_object_ids ++ build_payload ids

-- `u16::from_le_bytes(payload.get(off..off + 2)?)`
unfoldable pub get_u16 : List ℕ → ℕ → Option ℕ
get_u16 payload off =
    if leb (off + 2) (length payload) then some (from_le (take 2 (drop off payload))) else none

unfoldable pub parse_entries : List ℕ → ℕ → ℕ → Option (List (ℕ × ℕ))
parse_entries payload zero off = some []
parse_entries payload (suc n) off = do
  gap ← get_u16 payload off
  size ← get_u16 payload (off + 2)
  rest ← parse_entries payload n (off + 4)
  some ((gap, size) ∷ rest)

unfoldable pub parse_object_ids : List ℕ → Option (List ℕ)
parse_object_ids payload = if ltb (length payload) 2 then none else (do
  entries ← parse_entries payload (from_le (take 2 payload)) 2
  some (decompress entries))
