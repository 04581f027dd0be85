-- ===== src/Voice/PacketTests.antt =====
-- The theorems on voice packets at concrete inputs.
use baston.Prelude.{ℕ, ◌+◌, ◌≡◌, ◌≢◌, ◌≤◌, refl, arith, none, some, List, [], ◌∷◌, length}
use baston.Voice.Pds.{
  new, advance, offset, next_byte, read_raw_byte, read_behind, read_from, read_u64,
}
use baston.Voice.Packet.{
  VoicePacket, opus, ping, normal, codec_of_bits, target_of_bits, skip, frames, rounds, opus_frame,
  audio, contents, finish, decode_position, parse, with_rewritten_position,
}
use baston.Voice.Packet.Bounds.{frames-fuel, parse-bounds}
use baston.Voice.Packet.Rewrite.{parse-with_rewritten_position}

-- An Opus packet of session 7 with two bytes of audio, and no position.
abbrev payload : List ℕ
payload = 0x80 ∷ 7 ∷ 2 ∷ 10 ∷ 11 ∷ []

abbrev packet : VoicePacket
packet = record { codec = opus; target = normal; payload = payload; audio_end = 5; position = none }

payload-parse : parse payload ≡ some packet
unfolding parse codec_of_bits target_of_bits contents audio opus_frame skip read_raw_byte next_byte
    read_u64 read_from read_behind finish offset new decode_position
payload-parse = refl

parse-bounds_example :
    (packet.payload ≡ payload)
    × (1 ≤ packet.audio_end)
    × (packet.audio_end ≤ length payload)
    × ((pos : ℕ × ℕ × ℕ) → packet.position ≡ some pos → packet.audio_end + 12 ≡ length payload)
parse-bounds_example = parse-bounds payload packet payload-parse

not_a_ping : opus ≢ ping
not_a_ping h = cc

parse-with_rewritten_position_example :
    parse (with_rewritten_position packet (1, 2, 3))
    ≡ some (record packet {
      payload = with_rewritten_position packet (1, 2, 3);
      position = some (1, 2, 3);
    })
parse-with_rewritten_position_example =
    parse-with_rewritten_position payload packet 1 2 3 payload-parse not_a_ping (omega arith)
      (omega arith) (omega arith)

-- Two frames of one byte each; the first one says that another one follows.
frames-fuel_example :
    rounds (some (tt, advance [] 0)) 10 (advance (0x80 ∷ 0x81 ∷ 9 ∷ 0x01 ∷ 8 ∷ []) 0)
    ≡ frames 6 (advance (0x80 ∷ 0x81 ∷ 9 ∷ 0x01 ∷ 8 ∷ []) 0)
frames-fuel_example =
    frames-fuel (some (tt, advance [] 0)) 10 (advance (0x80 ∷ 0x81 ∷ 9 ∷ 0x01 ∷ 8 ∷ []) 0)
      (omega arith)
