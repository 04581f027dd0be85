-- ===== src/Voice/Packet.antt =====
-- The decrypted voice packets, crates/baston-voice/src/voice.rs, and the codes in their first byte,
-- crates/baston-voice/src/lib.rs. A coordinate is the bit pattern of its `f32`.
pub mod Locality
pub mod Reads
pub mod Frames
pub mod Bounds
pub mod Rewrite
use baston.Prelude.Bytes.{to_be, from_be}
use baston.Prelude.Parser.{Parser, ◌>>=◌, pure, continue}
use baston.Prelude.{
  ℕ, zero, suc, ◌+◌, ◌/◌, ◌%◌, ◌^◌, min, bit_and, Bool, true, false, Option, none, some, List, [],
  ◌∷◌, ◌++◌, ◌==◌, if◌then◌else◌, length, take, drop,
}
use baston.Voice.Pds.{PdsReader, new, offset, read_raw_byte, read_u64, write_u64}

pub data VoicePacketType : Type 0 where
  celt_alpha : VoicePacketType
  ping : VoicePacketType
  speex : VoicePacketType
  celt_beta : VoicePacketType
  opus : VoicePacketType

-- `VoicePacketType::from_bits`
unfoldable pub codec_of_bits : ℕ → Option VoicePacketType
codec_of_bits bits =
    let b = bit_and bits 0x07 in
    if b == 0
    then some celt_alpha
    else if b == 1
    then some ping
    else if b == 2
    then some speex
    else if b == 3
    then some celt_beta
    else if b == 4
    then some opus
    else none

pub data VoiceTargetKind : Type 0 where
  normal : VoiceTargetKind
  whisper : ℕ → VoiceTargetKind
  loopback : VoiceTargetKind

-- `VoiceTargetKind::from_bits`
unfoldable pub target_of_bits : ℕ → VoiceTargetKind
target_of_bits bits =
    let b = bit_and bits 0x1F in if b == 0 then normal else if b == 31 then loopback else whisper b

unfoldable pub to_bits : VoiceTargetKind → ℕ
to_bits normal = 0
to_bits loopback = 31
to_bits (whisper n) = bit_and n 0x1F

pub record VoicePacket : Type 0 where
  pub codec : VoicePacketType
  pub target : VoiceTargetKind
  pub payload : List ℕ
  pub audio_end : ℕ
  pub position : Option (ℕ × ℕ × ℕ)

unfoldable pub has_position : VoicePacket → Bool
has_position p = elim p.position [ none ↦ false | some _ ↦ true ]

unfoldable pub without_position : VoicePacket → List ℕ
without_position p = take p.audio_end p.payload

unfoldable pub with_rewritten_position : VoicePacket → ℕ × ℕ × ℕ → List ℕ
with_rewritten_position p (x, y, z) =
    take p.audio_end p.payload ++ (to_be 4 x ++ (to_be 4 y ++ to_be 4 z))

-- `parse` never gives an empty payload, on which the source's `payload[0]` would panic.
unfoldable pub encode_outbound : ℕ → VoicePacket → Bool → List ℕ
encode_outbound session p with_position =
    let body =
      if with_position
      then drop 1 p.payload
      else drop 1 (take (min p.audio_end (length p.payload)) p.payload) in
    take 1 p.payload ++ (write_u64 session ++ body)

unfoldable pub skip : ℕ → Parser PdsReader Unit
skip zero = pure tt
skip (suc n) = do _ ← read_raw_byte; skip n

-- The loop over the CELT and Speex frames with `fuel` rounds left. `spent` is the answer when none is
-- left: the source's loop has no such bound.
unfoldable pub rounds : Option (Unit {0} × PdsReader) → ℕ → Parser PdsReader Unit
rounds spent zero = λ r. spent
rounds spent (suc fuel) = do
  v ← read_u64
  _ ← skip (bit_and (v % 2 ^ 8) 0x7F)
  λ r.
      let rest = rounds spent fuel r in if bit_and (v % 2 ^ 8) 0x80 == 0 then some (tt, r) else rest

unfoldable pub frames : ℕ → Parser PdsReader Unit
frames fuel = rounds none fuel

unfoldable pub opus_frame : Parser PdsReader Unit
opus_frame = do hdr ← read_u64; skip (bit_and hdr 0x1FFF)

-- What `parse` reads behind the session id, by codec.
unfoldable pub audio : VoicePacketType → Parser PdsReader Unit
audio opus r = opus_frame r
audio ping r = some (tt, r)
audio celt_alpha r = frames (length r.unread + 1) r
audio speex r = frames (length r.unread + 1) r
audio celt_beta r = frames (length r.unread + 1) r

unfoldable pub decode_position : List ℕ → Option (ℕ × ℕ × ℕ)
decode_position tail =
    if length tail == 12
    then some (
      from_be 0 (take 4 tail),
      from_be 0 (take 4 (drop 4 tail)),
      from_be 0 (take 4 (drop 8 tail)),
    )
    else none

-- The packet that `parse` returns once the reader stands behind the audio.
unfoldable pub finish : VoicePacketType → VoiceTargetKind → List ℕ → PdsReader → VoicePacket
finish ping target payload r = record {
  codec = ping;
  target = target;
  payload = payload;
  audio_end = min (1 + offset r) (length payload);
  position = none;
}
finish codec target payload r = record {
  codec = codec;
  target = target;
  payload = payload;
  audio_end = 1 + offset r;
  position = decode_position (drop (min (1 + offset r) (length payload)) payload);
}

-- The session id and the audio behind the first byte.
unfoldable pub contents : VoicePacketType → Parser PdsReader Unit
contents codec = do _ ← read_u64; audio codec

unfoldable pub parse : List ℕ → Option VoicePacket
parse [] = none
parse (header ∷ rest) = elim (codec_of_bits (header / 2 ^ 5)) [
  | none ↦ none
  | some codec ↦ elim (contents codec (new rest)) [
    | none ↦ none
    | some (_, r) ↦ some (finish codec (target_of_bits (bit_and header 0x1F)) (header ∷ rest) r)
  ]
]
