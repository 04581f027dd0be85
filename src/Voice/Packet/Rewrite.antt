-- ===== src/Voice/Packet/Rewrite.antt =====
-- Packets that the server makes from parsed ones: with another position, and for a listener.
use baston.Prelude.{
  ℕ, suc, ◌+◌, ◌^◌, ◌<◌, ◌≡◌, ◌≢◌, refl, ap, ◌∙◌, arith, min, bit_and, Bool, some, List, [], ◌∷◌,
  ◌++◌, if◌then◌else◌, length, take, drop, length-append, take-append, drop-append, inl, inr,
  Bool-cases,
}
use baston.Prelude.Bytes.{to_be, from_be}
use baston.Voice.Pds.{PdsReader, new, offset, advance, read_u64, write_u64}
use baston.Voice.Pds.RoundTrip.{read_u64-write_u64}
use baston.Voice.Packet.{
  VoicePacket, VoicePacketType, VoiceTargetKind, opus, ping, celt_alpha, speex, celt_beta,
  target_of_bits, decode_position, finish, contents, parse, without_position,
  with_rewritten_position, encode_outbound,
}
use baston.Voice.Packet.Locality.{IsUsed, IsLocal}
use baston.Voice.Packet.Bounds.{
  IsParsed, parse-IsParsed, parse-read, contents-IsLocal, parse-bounds,
}

coordinate : (x : ℕ) → x < 2 ^ 32 → from_be 0 (to_be 4 x) ≡ x
unfolding from_be to_be
coordinate x h = omega arith

position_bytes : ℕ × ℕ × ℕ → List ℕ
position_bytes (x, y, z) = to_be 4 x ++ (to_be 4 y ++ to_be 4 z)

ap3 : {a a' b b' c c' : ℕ} → a ≡ a' → b ≡ b' → c ≡ c' → ◌≡◌ {A = ℕ × ℕ × ℕ} (a, b, c) (a', b', c')
ap3 p q r = λ i. (p i, q i, r i)

-- What is decoded from a block of three coordinates.
decode_position-bytes :
    (x y z : ℕ)
    → x < 2 ^ 32
    → y < 2 ^ 32
    → z < 2 ^ 32
    → decode_position (position_bytes (x, y, z)) ≡ some (x, y, z)
unfolding decode_position position_bytes to_be from_be
decode_position-bytes x y z hx hy hz =
    ap some (ap3 (coordinate x hx) (coordinate y hy) (coordinate z hz))

tail_at :
    (header : ℕ) (used tail : List ℕ) (r : PdsReader)
    → r.pos ≡ length used
    → drop (min (1 + r.pos) (length (header ∷ (used ++ tail)))) (header ∷ (used ++ tail)) ≡ tail
tail_at header used tail r at =
    let e : min (1 + r.pos) (length (header ∷ (used ++ tail))) ≡ suc (length used) =
      omega (arith, at, length-append used tail) in
    ap (λ n. drop n (header ∷ (used ++ tail))) e ∙ drop-append used tail

-- A reader that stands behind the audio finds the position there.
finish-rewritten :
    (codec : VoicePacketType) (target : VoiceTargetKind) (header : ℕ) (used tail : List ℕ)
    (r : PdsReader)
    → codec ≢ ping
    → r.pos ≡ length used
    → finish codec target (header ∷ (used ++ tail)) r ≡ record {
      codec = codec;
      target = target;
      payload = header ∷ (used ++ tail);
      audio_end = 1 + length used;
      position = decode_position tail;
    }
unfolding finish offset
finish-rewritten opus target header used tail r apart at = rw (tail_at header used tail r at) (
    ap
      (λ n. record {
        codec = opus;
        target = target;
        payload = header ∷ (used ++ tail);
        audio_end = 1 + n;
        position = decode_position tail;
      })
      at)
finish-rewritten ping target header used tail r apart at = absurd (apart refl)
finish-rewritten celt_alpha target header used tail r apart at =
    rw (tail_at header used tail r at) (
      ap
        (λ n. record {
          codec = celt_alpha;
          target = target;
          payload = header ∷ (used ++ tail);
          audio_end = 1 + n;
          position = decode_position tail;
        })
        at)
finish-rewritten speex target header used tail r apart at = rw (tail_at header used tail r at) (
    ap
      (λ n. record {
        codec = speex;
        target = target;
        payload = header ∷ (used ++ tail);
        audio_end = 1 + n;
        position = decode_position tail;
      })
      at)
finish-rewritten celt_beta target header used tail r apart at = rw (tail_at header used tail r at) (
    ap
      (λ n. record {
        codec = celt_beta;
        target = target;
        payload = header ∷ (used ++ tail);
        audio_end = 1 + n;
        position = decode_position tail;
      })
      at)

-- The packet with `used` behind its first byte and `tail` behind its audio.
abbrev whole : VoicePacketType → VoiceTargetKind → ℕ → List ℕ → List ℕ → VoicePacket
whole codec target header used tail = record {
  codec = codec;
  target = target;
  payload = header ∷ (used ++ tail);
  audio_end = 1 + length used;
  position = decode_position tail;
}

rewritten_payload :
    (codec : VoicePacketType) (target : VoiceTargetKind) (header : ℕ) (used tail : List ℕ)
    (pos : ℕ × ℕ × ℕ)
    → with_rewritten_position (whole codec target header used tail) pos
      ≡ header ∷ (used ++ position_bytes pos)
unfolding with_rewritten_position position_bytes
rewritten_payload codec target header used tail pos =
    let e : 1 + length used ≡ suc (length used) = omega arith in
    ap (λ n. take n (header ∷ (used ++ tail)) ++ position_bytes pos) e
    ∙ ap (λ t. header ∷ (t ++ position_bytes pos)) (take-append used tail)

finish-codec :
    (codec : VoicePacketType) (target : VoiceTargetKind) (payload : List ℕ) (r : PdsReader)
    → (finish codec target payload r).codec ≡ codec
unfolding finish
finish-codec opus target payload r = refl
finish-codec ping target payload r = refl
finish-codec celt_alpha target payload r = refl
finish-codec speex target payload r = refl
finish-codec celt_beta target payload r = refl

parsed-codec : (payload : List ℕ) (p : VoicePacket) (q : IsParsed payload p) → p.codec ≡ q.codec
parsed-codec payload p q =
    ap (λ t. t.codec) q.is
    ∙ finish-codec q.codec (target_of_bits (bit_and q.header 0x1F)) (q.header ∷ q.rest) q.behind

module _ (payload : List ℕ) (p : VoicePacket) (q : IsParsed payload p)
    (apart : q.codec ≢ ping) where
  kind : VoiceTargetKind
  kind = target_of_bits (bit_and q.header 0x1F)

  reading : IsUsed (contents q.codec) (new q.rest) tt q.behind
  unfolding IsLocal
  reading = contents-IsLocal q.codec (new q.rest) q.behind tt q.read

  at : q.behind.pos ≡ length reading.used
  unfolding new
  at = reading.moved ∙ omega arith

  is_whole : p ≡ whole q.codec kind q.header reading.used q.behind.unread
  unfolding new kind
  is_whole =
      q.is
      ∙ (ap (λ t. finish q.codec kind (q.header ∷ t) q.behind) reading.front
          ∙ finish-rewritten q.codec kind q.header reading.used q.behind.unread q.behind apart at)

  parse-whole :
      (tail : List ℕ)
      → parse (q.header ∷ (reading.used ++ tail))
        ≡ some (whole q.codec kind q.header reading.used tail)
  unfolding new kind
  parse-whole tail =
      parse-read q.header (reading.used ++ tail) q.codec (advance tail q.behind.pos) q.known
        (reading.again tail)
      ∙ ap some (
          finish-rewritten q.codec kind q.header reading.used tail (advance tail q.behind.pos) apart
            at)

-- A parsed packet other than a ping, sent on with three other 32-bit coordinates, parses as the
-- same packet with those coordinates: the audio, its codec and its target are untouched.
pub parse-with_rewritten_position :
    (payload : List ℕ) (p : VoicePacket) (x y z : ℕ)
    → parse payload ≡ some p
    → p.codec ≢ ping
    → x < 2 ^ 32
    → y < 2 ^ 32
    → z < 2 ^ 32
    → parse (with_rewritten_position p (x, y, z))
      ≡ some (record p { payload = with_rewritten_position p (x, y, z); position = some (x, y, z) })
parse-with_rewritten_position payload p x y z h apart hx hy hz =
    let q = parse-IsParsed payload p h in
    let pos : ℕ × ℕ × ℕ = (x, y, z) in
    let codec = parsed-codec payload p q in
    let other : q.codec ≢ ping = λ e. apart (codec ∙ e) in
    let u = reading payload p q other in
    rw (is_whole payload p q other) (
      ap parse
        (rewritten_payload q.codec (kind payload p q other) q.header u.used q.behind.unread pos)
      ∙ (parse-whole payload p q other (position_bytes pos)
          ∙ ap
              (λ o. some (record (whole q.codec (kind payload p q other) q.header u.used []) {
                payload = q.header ∷ (u.used ++ position_bytes pos);
                position = o;
              }))
              (decode_position-bytes x y z hx hy hz)
          ∙ rw
              (rewritten_payload q.codec (kind payload p q other) q.header u.used q.behind.unread
                pos)
              refl))

names_speaker :
    (session : ℕ) (body : List ℕ)
    → session < 2 ^ 64
    → read_u64 (advance (write_u64 session ++ body) 0)
      ≡ some (session, advance body (length (write_u64 session)))
names_speaker session body small =
    let e : 0 + length (write_u64 session) ≡ length (write_u64 session) = omega arith in
    read_u64-write_u64 session body 0 small ∙ ap (λ n. some (session, advance body n)) e

-- What is sent to a listener of a parsed packet keeps its first byte, then names the speaker, and
-- then hands over the packet's bytes behind the first: all of them with the position, or those of
-- the audio alone.
encode_outbound_lem :
    (payload : List ℕ) (p : VoicePacket) (session : ℕ) (with_position : Bool)
    → parse payload ≡ some p
    → session < 2 ^ 64
    → (take 1 (encode_outbound session p with_position) ≡ take 1 payload)
      × (read_u64 (new (drop 1 (encode_outbound session p with_position)))
          ≡ some (
            session,
            advance
                (drop 1 (if with_position then payload else without_position p))
                (length (write_u64 session)),
          ))
unfolding encode_outbound without_position new
encode_outbound_lem payload p session with_position h small =
    let q = parse-IsParsed payload p h in
    let f = parse-bounds payload p h in
    let first : payload ≡ q.header ∷ q.rest = q.split in
    let e : min p.audio_end (length p.payload) ≡ p.audio_end = omega (arith, f.2, ap length f.0) in
    rw (e, f.0, first)
      (
        refl,
        elim (Bool-cases with_position) [
          | inl on ↦ rw on (names_speaker session q.rest small)
          | inr off ↦
              rw off (names_speaker session (drop 1 (take p.audio_end (q.header ∷ q.rest))) small)
        ],
      )
