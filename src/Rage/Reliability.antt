-- ===== src/Rage/Reliability.antt =====
-- The reliability packets, crates/baston-protocol/src/rage/reliability.rs: `gameStateNAck` and
-- `gameStateAck`, little-endian.
pub mod Cursor
pub mod RoundTrip
use baston.Prelude.Parser.{◌>>=◌, pure, result}
use baston.Prelude.Bytes.{to_le}
use baston.Prelude.{
  ℕ, zero, suc, ◌%◌, ◌==◌, bit_and, not, Bool, Option, none, some, List, [], ◌∷◌, ◌++◌,
  if◌then◌else◌, length,
}
use baston.Rage.Reliability.Cursor.{Reader, start, u8, u16, u64}

pub record IgnoreEntry : Type 0 where
  pub object_id : ℕ
  pub last_frame : ℕ

pub record GameStateNAck : Type 0 where
  pub flags : ℕ
  pub frame_index : ℕ
  pub missing_frames : Option (ℕ × ℕ)
  pub ignore_list : List IgnoreEntry
  pub recreate_list : List ℕ

pub record GameStateAck : Type 0 where
  pub frame_index : ℕ
  pub ignore_list : List IgnoreEntry
  pub recreate_list : List ℕ

abbrev pub is_missing_frames : ℕ
is_missing_frames = 1

abbrev pub has_ignore_list : ℕ
has_ignore_list = 2

abbrev pub has_recreate_list : ℕ
has_recreate_list = 4

-- `flags & flag != 0`
unfoldable pub has : ℕ → ℕ → Bool
has flags flag = not (bit_and flags flag == 0)

-- The loop of `ignore_list` with `n` entries left.
unfoldable pub ignore_entries : ℕ → Reader (List IgnoreEntry)
ignore_entries zero = pure []
ignore_entries (suc n) = do
  object_id ← u16
  last_frame ← u64
  rest ← ignore_entries n
  pure (record { object_id = object_id; last_frame = last_frame } ∷ rest)

unfoldable pub ignore_list : Reader (List IgnoreEntry)
ignore_list = do count ← u8; ignore_entries count

-- The loop of `recreate_list` with `n` ids left.
unfoldable pub recreate_ids : ℕ → Reader (List ℕ)
recreate_ids zero = pure []
recreate_ids (suc n) = do id ← u16; rest ← recreate_ids n; pure (id ∷ rest)

unfoldable pub recreate_list : Reader (List ℕ)
recreate_list = do count ← u8; recreate_ids count

unfoldable pub frame_pair : Reader (Option (ℕ × ℕ))
frame_pair = do first ← u64; last ← u64; pure (some (first, last))

-- An optional part of the payload, read only if its flag is set.
abbrev pub when : {A : Type 0} → Bool → Reader A → A → Reader A
when flag r missing = if flag then r else pure missing

unfoldable pub read_nack : Reader GameStateNAck
read_nack = do
  flags ← u8
  frame_index ← u64
  missing_frames ← when (has flags is_missing_frames) frame_pair none
  ignored ← when (has flags has_ignore_list) ignore_list []
  recreated ← when (has flags has_recreate_list) recreate_list []
  pure (record {
    flags = flags;
    frame_index = frame_index;
    missing_frames = missing_frames;
    ignore_list = ignored;
    recreate_list = recreated;
  })

unfoldable pub read_ack : Reader GameStateAck
read_ack = do
  frame_index ← u64
  ignored ← ignore_list
  recreated ← recreate_list
  pure (record { frame_index = frame_index; ignore_list = ignored; recreate_list = recreated })

unfoldable pub parse_nack : List ℕ → Option GameStateNAck
parse_nack payload = result (read_nack (start payload))

unfoldable pub parse_ack : List ℕ → Option GameStateAck
parse_ack payload = result (read_ack (start payload))

unfoldable pub entries_bytes : List IgnoreEntry → List ℕ
entries_bytes [] = []
entries_bytes (e ∷ es) = to_le 2 e.object_id ++ (to_le 8 e.last_frame ++ entries_bytes es)

unfoldable pub ids_bytes : List ℕ → List ℕ
ids_bytes [] = []
ids_bytes (id ∷ ids) = to_le 2 id ++ ids_bytes ids

unfoldable pub frames_bytes : Option (ℕ × ℕ) → List ℕ
frames_bytes none = []
frames_bytes (some (first, last)) = to_le 8 first ++ to_le 8 last

-- The counts are cut to a byte, `len() as u8`.
unfoldable pub build_nack : GameStateNAck → List ℕ
build_nack nack =
    nack.flags
    ∷ (to_le 8 nack.frame_index
        ++ (frames_bytes nack.missing_frames
            ++ ((if has nack.flags has_ignore_list
                  then (length nack.ignore_list % 256) ∷ entries_bytes nack.ignore_list
                  else [])
                ++ (if has nack.flags has_recreate_list
                    then (length nack.recreate_list % 256) ∷ ids_bytes nack.recreate_list
                    else []))))
