-- ===== src/Voice/Crypto/Stream.antt =====
-- A sender and a receiver that are in step stay so, packet by packet.
use baston.Prelude.{
  ℕ, ◌≡◌, refl, sym, ap, ◌∙◌, arith, true, false, Option, some, List, [], ◌∷◌, ◌++◌, map, length,
  take, drop, get_or, length-append, length-take-le, take-append, drop-append, ltb,
}
use baston.Voice.Session.{same_bytes}
use baston.Voice.Crypto.{CryptState, ocb_encrypt, increment, accept, encrypt, decrypt}
use baston.Voice.Crypto.Nonce.{
  IsNonce, moved_on, increment-IsNonce, move_iv-increment, tag-ocb_encrypt, ocb_decrypt-ocb_encrypt,
}

same_bytes_refl : (xs : List ℕ) → same_bytes xs xs ≡ true
unfolding same_bytes
same_bytes_refl [] = refl
same_bytes_refl (x ∷ xs) = ground (arith, same_bytes_refl xs)

module _ (aes_encrypt aes_decrypt : List ℕ → List ℕ) where
  -- What the sender makes of its payloads, and the receiver of the packets, in order.
  unfoldable pub encrypt_all : CryptState → List (List ℕ) → List (List ℕ)
  encrypt_all st [] = []
  encrypt_all st (payload ∷ payloads) =
      let next = encrypt aes_encrypt aes_decrypt st payload in next.1 ∷ encrypt_all next.0 payloads

  unfoldable pub decrypt_all : CryptState → List (List ℕ) → List (Option (List ℕ))
  decrypt_all st [] = []
  decrypt_all st (packet ∷ packets) =
      let next = decrypt aes_encrypt aes_decrypt st packet in next.1 ∷ decrypt_all next.0 packets

  module _ (sized : (b : List ℕ) → length b ≡ 16 → length (aes_encrypt b) ≡ 16)
      (inverse : (b : List ℕ) → length b ≡ 16 → aes_decrypt (aes_encrypt b) ≡ b) where
    -- If AES maps blocks to blocks and its decryption undoes it, a receiver whose nonce is the
    -- sender's, 16 bytes, accepts the sender's next packet: it gets the payload, moves to the
    -- sender's new nonce and counts one good packet.
    pub decrypt-encrypt :
        (sender receiver : CryptState) (payload : List ℕ)
        → receiver.decrypt_iv ≡ sender.encrypt_iv
        → IsNonce sender.encrypt_iv
        → decrypt aes_encrypt aes_decrypt receiver
            (encrypt aes_encrypt aes_decrypt sender payload).1
          ≡ (accept receiver (moved_on (increment sender.encrypt_iv)), some payload)
    unfolding decrypt encrypt
    decrypt-encrypt sender receiver payload same n =
        let iv = increment sender.encrypt_iv in
        let sealed = ocb_encrypt aes_encrypt aes_decrypt payload iv in
        let m = increment-IsNonce sender.encrypt_iv n in
        let t : length (take 3 sealed.1) ≡ 3 =
          length-take-le 3 sealed.1
            (omega (arith, tag-ocb_encrypt aes_encrypt aes_decrypt sized inverse payload iv m.0)) in
        let long : ltb (length (get_or iv 0 0 ∷ (take 3 sealed.1 ++ sealed.0))) 4 ≡ false =
          ground (arith, length-append (take 3 sealed.1) sealed.0, t) in
        let front : take 3 (take 3 sealed.1 ++ sealed.0) ≡ take 3 sealed.1 =
          ap (λ k. take k (take 3 sealed.1 ++ sealed.0)) (sym t)
          ∙ take-append (take 3 sealed.1) sealed.0 in
        let back : drop 3 (take 3 sealed.1 ++ sealed.0) ≡ sealed.0 =
          ap (λ k. drop k (take 3 sealed.1 ++ sealed.0)) (sym t)
          ∙ drop-append (take 3 sealed.1) sealed.0 in
        rw (long, decrypt)
          (rw (move_iv-increment receiver sender.encrypt_iv same n) (
            rw (back, ocb_decrypt-ocb_encrypt aes_encrypt aes_decrypt sized inverse payload iv m.0)
              (rw (front, same_bytes_refl (take 3 sealed.1)) refl)))

    in_step_after :
        (sender receiver : CryptState) (payload : List ℕ)
        → (accept receiver (moved_on (increment sender.encrypt_iv))).decrypt_iv
          ≡ (encrypt aes_encrypt aes_decrypt sender payload).0.encrypt_iv
    unfolding accept encrypt
    in_step_after sender receiver payload = refl

    IsNonce-encrypt :
        (sender : CryptState) (payload : List ℕ)
        → IsNonce sender.encrypt_iv
        → IsNonce (encrypt aes_encrypt aes_decrypt sender payload).0.encrypt_iv
    unfolding encrypt
    IsNonce-encrypt sender payload n = increment-IsNonce sender.encrypt_iv n

    -- If AES maps blocks to blocks and its decryption undoes it, then a receiver whose nonce is the
    -- sender's, 16 bytes, gets every payload of any sequence of packets that arrive in order.
    pub decrypt_all-encrypt_all :
        (sender receiver : CryptState) (payloads : List (List ℕ))
        → receiver.decrypt_iv ≡ sender.encrypt_iv
        → IsNonce sender.encrypt_iv
        → decrypt_all receiver (encrypt_all sender payloads) ≡ map some payloads
    unfolding decrypt_all encrypt_all
    decrypt_all-encrypt_all sender receiver [] same n = refl
    decrypt_all-encrypt_all sender receiver (payload ∷ payloads) same n =
        rw (decrypt-encrypt sender receiver payload same n) (
          ap (λ t. some payload ∷ t)
            (decrypt_all-encrypt_all (encrypt aes_encrypt aes_decrypt sender payload).0
              (accept receiver (moved_on (increment sender.encrypt_iv))) payloads
              (in_step_after sender receiver payload) (IsNonce-encrypt sender payload n)))
