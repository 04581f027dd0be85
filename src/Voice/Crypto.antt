-- ===== src/Voice/Crypto.antt =====
-- The encryption of the voice packets, crates/baston-voice/src/crypto.rs. A block is its 16 bytes.
-- AES-128 under the shared key is the parameters `aes_encrypt` and `aes_decrypt`.
pub mod Blocks
pub mod Ocb
pub mod Nonce
pub mod Stream
pub mod Replay
mod CryptoTests
use baston.Prelude.Bytes.{to_be}
use baston.Prelude.Xor.{xor}
use baston.Prelude.{
  ℕ, zero, suc, ◌+◌, ◌-◌, ◌*◌, ◌/◌, ◌%◌, ◌^◌, bit_and, bit_or, bit_xor, Bool, true, false, ◌&&◌,
  Option, none, some, List, [], ◌∷◌, ◌++◌, ltb, ◌==◌, if◌then◌else◌, length, take, drop, get_or,
  set, replicate,
}
use baston.Voice.Session.{same_bytes}

abbrev pub block : ℕ
block = 16

-- The loop of `times2`.
unfoldable pub shift_left : List ℕ → List ℕ
shift_left [] = []
shift_left (b ∷ []) = bit_or (b * 2 % 2 ^ 8) 0 ∷ []
shift_left (b ∷ c ∷ bs) = bit_or (b * 2 % 2 ^ 8) (c / 2 ^ 7) ∷ shift_left (c ∷ bs)

unfoldable pub times2 : List ℕ → List ℕ
times2 b =
    let out = shift_left b in
    if get_or b 0 0 / 2 ^ 7 == 1 then set out 15 (bit_xor (get_or out 15 0) 0x87) else out

unfoldable pub times3 : List ℕ → List ℕ
times3 b = xor b (times2 b)

-- The length in bits of the last part, as a block.
unfoldable pub length_block : ℕ → List ℕ
length_block len = replicate 8 0 ++ to_be 8 (len * 8 % 2 ^ 64)

module _ (aes_encrypt aes_decrypt : List ℕ → List ℕ) where
  unfoldable pub encrypt_last : List ℕ → List ℕ → List ℕ → List ℕ × List ℕ
  encrypt_last delta0 checksum plain =
      let delta = times2 delta0 in
      let pad = aes_encrypt (xor (length_block (length plain)) delta) in
      let last = plain ++ drop (length plain) pad in
      (take (length plain) (xor pad last), aes_encrypt (xor (times3 delta) (xor checksum last)))

  -- The loop over the whole blocks, on as much fuel as there are bytes, and what follows it.
  unfoldable pub encrypt_loop : ℕ → List ℕ → List ℕ → List ℕ → List ℕ × List ℕ
  encrypt_loop zero delta checksum plain = encrypt_last delta checksum plain
  encrypt_loop (suc fuel) delta0 checksum plain =
      let delta = times2 delta0 in
      let chunk = take block plain in
      let rest = encrypt_loop fuel delta (xor checksum chunk) (drop block plain) in
      if ltb block (length plain)
      then (xor delta (aes_encrypt (xor delta chunk)) ++ rest.0, rest.1)
      else encrypt_last delta0 checksum plain

  unfoldable pub ocb_encrypt : List ℕ → List ℕ → List ℕ × List ℕ
  ocb_encrypt plain nonce =
      encrypt_loop (length plain) (aes_encrypt nonce) (replicate block 0) plain

  unfoldable pub decrypt_last : List ℕ → List ℕ → List ℕ → List ℕ × List ℕ
  decrypt_last delta0 checksum encrypted =
      let delta = times2 delta0 in
      let pad = aes_encrypt (xor (length_block (length encrypted)) delta) in
      let last = xor (take (length encrypted) pad) encrypted ++ drop (length encrypted) pad in
      (take (length encrypted) last, aes_encrypt (xor (times3 delta) (xor checksum last)))

  unfoldable pub decrypt_loop : ℕ → List ℕ → List ℕ → List ℕ → List ℕ × List ℕ
  decrypt_loop zero delta checksum encrypted = decrypt_last delta checksum encrypted
  decrypt_loop (suc fuel) delta0 checksum encrypted =
      let delta = times2 delta0 in
      let p = xor delta (aes_decrypt (xor delta (take block encrypted))) in
      let rest = decrypt_loop fuel delta (xor checksum p) (drop block encrypted) in
      if ltb block (length encrypted)
      then (p ++ rest.0, rest.1)
      else decrypt_last delta0 checksum encrypted

  unfoldable pub ocb_decrypt : List ℕ → List ℕ → List ℕ × List ℕ
  ocb_decrypt encrypted nonce =
      decrypt_loop (length encrypted) (aes_encrypt nonce) (replicate block 0) encrypted

pub record CryptState : Type 0 where
  pub encrypt_iv : List ℕ
  pub decrypt_iv : List ℕ
  pub decrypt_history : List ℕ
  pub good : ℕ
  pub late : ℕ
  pub lost : ℕ

unfoldable pub new : List ℕ → List ℕ → CryptState
new encrypt_iv decrypt_iv = record {
  encrypt_iv = encrypt_iv;
  decrypt_iv = decrypt_iv;
  decrypt_history = replicate 256 0;
  good = 0;
  late = 0;
  lost = 0;
}

-- The loops over the bytes of a nonce, up or down by one.
unfoldable pub increment : List ℕ → List ℕ
increment [] = []
increment (b ∷ bs) =
    let rest = increment bs in
    let next = (b + 1) % 2 ^ 8 in if next == 0 then next ∷ rest else next ∷ bs

unfoldable pub decrement : List ℕ → List ℕ
decrement [] = []
decrement (b ∷ bs) =
    let rest = decrement bs in
    let next = (b + 255) % 2 ^ 8 in if b == 0 then next ∷ rest else next ∷ bs

-- What a packet's first byte makes of the nonce. `lost_or_late` is the source's `lost` plus one,
-- which is never below 0.
pub record Moved : Type 0 where
  pub iv : List ℕ
  pub restore : Bool
  pub late : ℕ
  pub lost_or_late : ℕ

unfoldable pub in_order : ℕ → List ℕ → Option Moved
in_order ivbyte iv =
    if ltb (get_or iv 0 0) ivbyte
    then some (record { iv = set iv 0 ivbyte; restore = false; late = 0; lost_or_late = 1 })
    else if ltb ivbyte (get_or iv 0 0)
    then some (record {
      iv = ivbyte ∷ increment (drop 1 iv);
      restore = false;
      late = 0;
      lost_or_late = 1;
    })
    else none

-- `diff` plus 256.
unfoldable pub wrapped_diff : ℕ → ℕ → ℕ
wrapped_diff ivbyte iv0 =
    let diff = ivbyte + 256 - iv0 in
    if ltb 384 diff then diff - 256 else if ltb diff 128 then diff + 256 else diff

unfoldable pub reordered : ℕ → List ℕ → Option Moved
reordered ivbyte iv =
    let iv0 = get_or iv 0 0 in
    let diff = wrapped_diff ivbyte iv0 in
    if ltb ivbyte iv0 && (ltb 226 diff && ltb diff 256)
    then some (record { iv = set iv 0 ivbyte; restore = true; late = 1; lost_or_late = 0 })
    else if ltb iv0 ivbyte && (ltb 226 diff && ltb diff 256)
    then some
        (record { iv = ivbyte ∷ decrement (drop 1 iv); restore = true; late = 1; lost_or_late = 0 })
    else if ltb iv0 ivbyte && ltb 256 diff
    then some
        (record { iv = set iv 0 ivbyte; restore = false; late = 0; lost_or_late = ivbyte - iv0 })
    else if ltb ivbyte iv0 && ltb 256 diff
    then some (record {
      iv = ivbyte ∷ increment (drop 1 iv);
      restore = false;
      late = 0;
      lost_or_late = 256 + ivbyte - iv0;
    })
    else none

-- The replay guard on the nonce that was reached.
unfoldable pub not_replayed : List ℕ → Moved → Option Moved
not_replayed history m =
    if get_or history (get_or m.iv 0 0) 0 == get_or m.iv 1 0 then none else some m

unfoldable pub move_iv : CryptState → ℕ → Option Moved
move_iv st ivbyte =
    if bit_and (get_or st.decrypt_iv 0 0 + 1) 0xFF == ivbyte
    then in_order ivbyte st.decrypt_iv
    else elim (reordered ivbyte st.decrypt_iv) [
      | none ↦ none
      | some m ↦ not_replayed st.decrypt_history m
    ]

-- The state behind a packet that was accepted.
unfoldable pub accept : CryptState → Moved → CryptState
accept st m = record {
  encrypt_iv = st.encrypt_iv;
  decrypt_iv = if m.restore then st.decrypt_iv else m.iv;
  decrypt_history = set st.decrypt_history (get_or m.iv 0 0) (get_or m.iv 1 0);
  good = (st.good + 1) % 2 ^ 32;
  late = (st.late + m.late) % 2 ^ 32;
  lost = if ltb 1 m.lost_or_late then (st.lost + (m.lost_or_late - 1)) % 2 ^ 32 else st.lost;
}

module _ (aes_encrypt aes_decrypt : List ℕ → List ℕ) where
  unfoldable pub encrypt : CryptState → List ℕ → CryptState × List ℕ
  encrypt st source =
      let iv = increment st.encrypt_iv in
      let sealed = ocb_encrypt aes_encrypt aes_decrypt source iv in
      (record st { encrypt_iv = iv }, get_or iv 0 0 ∷ (take 3 sealed.1 ++ sealed.0))

  unfoldable pub decrypt : CryptState → List ℕ → CryptState × Option (List ℕ)
  decrypt st source =
      if ltb (length source) 4 then (st, none) else elim (move_iv st (get_or source 0 0)) [
        | none ↦ (st, none)
        | some m ↦
            let opened = ocb_decrypt aes_encrypt aes_decrypt (drop 4 source) m.iv in
            if same_bytes (take 3 opened.1) (take 3 (drop 1 source))
            then (accept st m, some opened.0)
            else (st, none)
      ]
