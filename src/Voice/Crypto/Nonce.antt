-- ===== src/Voice/Crypto/Nonce.antt =====
-- The cipher under one nonce, and how a receiver in step follows the sender's nonce.
use baston.Prelude.{
  ℕ, suc, ◌+◌, ◌%◌, ◌^◌, ◌≡◌, ◌<◌, refl, ap, ◌∙◌, arith, true, false, some, List, [], ◌∷◌, length,
  get_or, replicate, All, inl, inr, Bool-cases, ltb, ◌==◌, bit_and,
}
use baston.Prelude.Bytes.{IsByte}
use baston.Prelude.Bits.{bit_and-ones}
use baston.Voice.Crypto.{CryptState, Moved, ocb_encrypt, ocb_decrypt, increment, in_order, move_iv}
use baston.Voice.Crypto.Ocb.{decrypt_loop-encrypt_loop, length-encrypt_loop, tag-encrypt_loop}

module _ (aes_encrypt aes_decrypt : List ℕ → List ℕ)
    (sized : (b : List ℕ) → length b ≡ 16 → length (aes_encrypt b) ≡ 16)
    (inverse : (b : List ℕ) → length b ≡ 16 → aes_decrypt (aes_encrypt b) ≡ b)
    (plain nonce : List ℕ) (n : length nonce ≡ 16) where
  pub length-ocb_encrypt : length (ocb_encrypt aes_encrypt aes_decrypt plain nonce).0 ≡ length plain
  unfolding ocb_encrypt
  length-ocb_encrypt =
      length-encrypt_loop aes_encrypt aes_decrypt sized inverse (length plain) (aes_encrypt nonce)
        (replicate 16 0) plain (sized nonce n) (omega arith)

  pub tag-ocb_encrypt : length (ocb_encrypt aes_encrypt aes_decrypt plain nonce).1 ≡ 16
  unfolding ocb_encrypt
  tag-ocb_encrypt =
      tag-encrypt_loop aes_encrypt aes_decrypt sized inverse (length plain) (aes_encrypt nonce)
        (replicate 16 0) plain (sized nonce n) refl (omega arith)

  -- If AES maps blocks to blocks and its decryption undoes it, then a text of any length that was
  -- encrypted under a 16-byte nonce is decrypted under it, and both sides compute the same tag.
  pub ocb_decrypt-ocb_encrypt :
      ocb_decrypt aes_encrypt aes_decrypt (ocb_encrypt aes_encrypt aes_decrypt plain nonce).0 nonce
      ≡ (plain, (ocb_encrypt aes_encrypt aes_decrypt plain nonce).1)
  unfolding ocb_encrypt ocb_decrypt
  ocb_decrypt-ocb_encrypt = rw length-ocb_encrypt (
      decrypt_loop-encrypt_loop aes_encrypt aes_decrypt sized inverse (length plain)
        (aes_encrypt nonce) (replicate 16 0) plain (sized nonce n) (omega arith))

increment-IsByte : (bs : List ℕ) → All IsByte bs → All IsByte (increment bs)
unfolding increment
increment-IsByte [] h = tt
increment-IsByte (b ∷ bs) h = elim (Bool-cases ((b + 1) % 2 ^ 8 == 0)) [
  | inl wraps ↦ rw (wraps, increment) (omega arith, increment-IsByte bs h.1)
  | inr stays ↦ rw (stays, increment) (omega arith, h.1)
]

length-increment : (bs : List ℕ) → length (increment bs) ≡ length bs
unfolding increment
length-increment [] = refl
length-increment (b ∷ bs) = elim (Bool-cases ((b + 1) % 2 ^ 8 == 0)) [
  | inl wraps ↦ rw (wraps, increment) (ap suc (length-increment bs))
  | inr stays ↦ rw (stays, increment) refl
]

-- The first byte of the next nonce leads a receiver in step to that nonce.
abbrev pub moved_on : List ℕ → Moved
moved_on iv = record { iv = iv; restore = false; late = 0; lost_or_late = 1 }

in_order-increment :
    (b : ℕ) (bs : List ℕ)
    → b < 256
    → in_order (get_or (increment (b ∷ bs)) 0 0) (b ∷ bs) ≡ some (moved_on (increment (b ∷ bs)))
unfolding in_order increment
in_order-increment b bs small = elim (Bool-cases ((b + 1) % 2 ^ 8 == 0)) [
  | inl wraps ↦
      let up : ltb b ((b + 1) % 256) ≡ false = ground (arith, wraps) in
      let down : ltb ((b + 1) % 256) b ≡ true = ground (arith, wraps) in
      rw (wraps, increment) (rw (up, down) refl)
  | inr stays ↦
      let up : ltb b ((b + 1) % 256) ≡ true = ground (arith, stays) in
      rw (stays, increment) (rw up refl)
]

head-increment : (b : ℕ) (bs : List ℕ) → get_or (increment (b ∷ bs)) 0 0 ≡ (b + 1) % 2 ^ 8
unfolding increment
head-increment b bs = elim (Bool-cases ((b + 1) % 2 ^ 8 == 0)) [
  | inl wraps ↦ rw (wraps, increment) refl
  | inr stays ↦ rw (stays, increment) refl
]

move_iv-cons :
    (st : CryptState) (b : ℕ) (bs : List ℕ)
    → st.decrypt_iv ≡ b ∷ bs
    → b < 256
    → move_iv st (get_or (increment (b ∷ bs)) 0 0) ≡ some (moved_on (increment (b ∷ bs)))
unfolding move_iv
move_iv-cons st b bs same small =
    let first : (bit_and (b + 1) 0xFF == get_or (increment (b ∷ bs)) 0 0) ≡ true =
      ground (arith, bit_and-ones 8 (b + 1), head-increment b bs) in
    rw (same, move_iv) (rw first (in_order-increment b bs small))

-- A nonce: 16 bytes.
abbrev pub IsNonce : List ℕ → Type 0
IsNonce iv = (length iv ≡ 16) × All IsByte iv

pub increment-IsNonce : (iv : List ℕ) → IsNonce iv → IsNonce (increment iv)
increment-IsNonce iv h = (length-increment iv ∙ h.0, increment-IsByte iv h.1)

pub move_iv-increment :
    (st : CryptState) (iv : List ℕ)
    → st.decrypt_iv ≡ iv
    → IsNonce iv
    → move_iv st (get_or (increment iv) 0 0) ≡ some (moved_on (increment iv))
move_iv-increment st [] same h = absurd (omega (arith, h.0))
move_iv-increment st (b ∷ bs) same h = move_iv-cons st b bs same h.1.0
