-- ===== src/Voice/Packet/Bounds.antt =====
-- Where the audio of a parsed packet ends, and that the loop over the frames has enough fuel.
use baston.Prelude.{
  ℕ, ◌+◌, ◌/◌, ◌^◌, ◌≤◌, ◌≡◌, refl, sym, ap, ◌∙◌, arith, min, bit_and, none, some, List, [], ◌∷◌,
  ◌++◌, ◌==◌, length, length-append, length-drop, inl, inr, Bool-cases, Option-cases, Option, ◌<◌,
}
use baston.Voice.Pds.{PdsReader, new, offset, read_u64}
use baston.Voice.Packet.{
  VoicePacket, VoiceTargetKind, frames, audio, contents, VoicePacketType, opus, ping, celt_alpha,
  speex, celt_beta, codec_of_bits, target_of_bits, decode_position, finish, parse, rounds,
}
use baston.Voice.Packet.Locality.{IsUsed, IsLocal, none-some, pure-IsLocal, bind-IsLocal}
use baston.Voice.Packet.Reads.{read_u64-IsLocal, opus_frame-IsLocal}
use baston.Voice.Packet.Frames.{frames-IsRead, rounds-fuel}

-- The loop over the frames ends: on any number of rounds above the number of unread bytes, `parse`'s
-- own among them, it gives the same, whatever it would answer if the rounds ran out.
pub frames-fuel :
    (spent : Option (Unit {0} × PdsReader)) (n : ℕ) (r : PdsReader)
    → length r.unread < n
    → rounds spent n r ≡ frames (length r.unread + 1) r
unfolding frames
frames-fuel spent n r p = rounds-fuel spent none n (length r.unread + 1) r p (omega arith)

loop-IsUsed :
    (r r' : PdsReader) (u : Unit)
    → frames (length r.unread + 1) r ≡ some (u, r')
    → IsUsed (λ s. frames (length s.unread + 1) s) r u r'
loop-IsUsed r r' u h =
    let x = frames-IsRead (length r.unread + 1) r r' u h in
    record {
      used = x.used;
      front = x.front;
      moved = x.moved;
      again = λ rest.
          x.again (length (x.used ++ rest) + 1) rest (omega (arith, length-append x.used rest));
    }

audio-IsLocal : (codec : VoicePacketType) → IsLocal (audio codec)
unfolding IsLocal audio
audio-IsLocal opus r r' u h = opus_frame-IsLocal r r' u h
audio-IsLocal ping r r' u h = pure-IsLocal tt r r' u h
audio-IsLocal celt_alpha r r' u h = loop-IsUsed r r' u h
audio-IsLocal speex r r' u h = loop-IsUsed r r' u h
audio-IsLocal celt_beta r r' u h = loop-IsUsed r r' u h

pub contents-IsLocal : (codec : VoicePacketType) → IsLocal (contents codec)
unfolding contents
contents-IsLocal codec =
    bind-IsLocal read_u64 (λ _. audio codec) read_u64-IsLocal (λ _. audio-IsLocal codec)

parse-unknown :
    (header : ℕ) (rest : List ℕ)
    → codec_of_bits (header / 2 ^ 5) ≡ none
    → parse (header ∷ rest) ≡ none
unfolding parse
parse-unknown header rest unknown = rw (unknown, parse) refl

parse-failed :
    (header : ℕ) (rest : List ℕ) (codec : VoicePacketType)
    → codec_of_bits (header / 2 ^ 5) ≡ some codec
    → contents codec (new rest) ≡ none
    → parse (header ∷ rest) ≡ none
unfolding parse
parse-failed header rest codec known failed = rw (known, parse) (rw failed refl)

pub parse-read :
    (header : ℕ) (rest : List ℕ) (codec : VoicePacketType) (r : PdsReader)
    → codec_of_bits (header / 2 ^ 5) ≡ some codec
    → contents codec (new rest) ≡ some (tt, r)
    → parse (header ∷ rest)
      ≡ some (finish codec (target_of_bits (bit_and header 0x1F)) (header ∷ rest) r)
unfolding parse
parse-read header rest codec r known done = rw (known, parse) (rw done refl)

-- The parts of a packet that was parsed.
pub record IsParsed (payload : List ℕ) (p : VoicePacket) : Type 0 where
  pub header : ℕ
  pub rest : List ℕ
  pub codec : VoicePacketType
  pub behind : PdsReader
  pub split : payload ≡ header ∷ rest
  pub known : codec_of_bits (header / 2 ^ 5) ≡ some codec
  pub read : contents codec (new rest) ≡ some (tt, behind)
  pub is : p ≡ finish codec (target_of_bits (bit_and header 0x1F)) (header ∷ rest) behind

pub parse-IsParsed :
    (payload : List ℕ) (p : VoicePacket) → parse payload ≡ some p → IsParsed payload p
unfolding parse
parse-IsParsed [] p h = cc
parse-IsParsed (header ∷ rest) p h = elim (Option-cases (codec_of_bits (header / 2 ^ 5))) [
  | inl unknown ↦ absurd (none-some (sym (parse-unknown header rest unknown) ∙ h))
  | inr (codec, known) ↦ elim (Option-cases (contents codec (new rest))) [
    | inl failed ↦ absurd (none-some (sym (parse-failed header rest codec known failed) ∙ h))
    | inr ((u, r), done) ↦ record {
      header = header;
      rest = rest;
      codec = codec;
      behind = r;
      split = refl;
      known = known;
      read = done;
      is = ground (arith, h, parse-read header rest codec r known done);
    }
  ]
]

decode_position-length :
    (tail : List ℕ) (pos : ℕ × ℕ × ℕ) → decode_position tail ≡ some pos → length tail ≡ 12
unfolding decode_position
decode_position-length tail pos h = elim (Bool-cases (length tail == 12)) [
  | inl whole ↦ ground (arith, whole)
  | inr other ↦ absurd (ground (arith, other, h))
]

-- What `finish` makes of a reader that stands inside the payload.
finish-bounds :
    (codec : VoicePacketType) (target : VoiceTargetKind) (payload : List ℕ) (r : PdsReader)
    → 1 + r.pos ≤ length payload
    → ((finish codec target payload r).payload ≡ payload)
      × ((finish codec target payload r).audio_end ≡ 1 + r.pos)
      × ((pos : ℕ × ℕ × ℕ)
          → (finish codec target payload r).position ≡ some pos
          → 1 + r.pos + 12 ≡ length payload)
unfolding finish offset
finish-bounds ping target payload r h = (refl, omega arith, λ pos e. cc)
finish-bounds opus target payload r h = (
  refl,
  refl,
  λ pos e. omega (
    arith,
    decode_position-length _ pos e,
    length-drop (min (1 + r.pos) (length payload)) payload,
  ),
)
finish-bounds celt_alpha target payload r h = (
  refl,
  refl,
  λ pos e. omega (
    arith,
    decode_position-length _ pos e,
    length-drop (min (1 + r.pos) (length payload)) payload,
  ),
)
finish-bounds speex target payload r h = (
  refl,
  refl,
  λ pos e. omega (
    arith,
    decode_position-length _ pos e,
    length-drop (min (1 + r.pos) (length payload)) payload,
  ),
)
finish-bounds celt_beta target payload r h = (
  refl,
  refl,
  λ pos e. omega (
    arith,
    decode_position-length _ pos e,
    length-drop (min (1 + r.pos) (length payload)) payload,
  ),
)

pub reader-inside :
    (codec : VoicePacketType) (rest : List ℕ) (r : PdsReader)
    → contents codec (new rest) ≡ some (tt, r)
    → r.pos ≤ length rest
unfolding IsLocal new
reader-inside codec rest r h =
    let x = contents-IsLocal codec (new rest) r tt h in
    omega (arith, x.moved, ap length x.front, length-append x.used r.unread)

-- A packet that was parsed carries the whole payload. Its audio ends behind the first byte and
-- inside the payload, so that no slice at that place panics, and it has a position only if exactly 12
-- bytes follow the audio.
pub parse-bounds :
    (payload : List ℕ) (p : VoicePacket)
    → parse payload ≡ some p
    → (p.payload ≡ payload)
      × (1 ≤ p.audio_end)
      × (p.audio_end ≤ length payload)
      × ((pos : ℕ × ℕ × ℕ) → p.position ≡ some pos → p.audio_end + 12 ≡ length payload)
parse-bounds payload p h =
    let x = parse-IsParsed payload p h in
    let inside = reader-inside x.codec x.rest x.behind x.read in
    let f =
      finish-bounds x.codec (target_of_bits (bit_and x.header 0x1F)) (x.header ∷ x.rest) x.behind
        (omega (arith, inside)) in
    rw (x.is, x.split)
      (f.0, omega (arith, f.1), omega (arith, f.1, inside), λ pos e. omega (arith, f.1, f.2 pos e))
