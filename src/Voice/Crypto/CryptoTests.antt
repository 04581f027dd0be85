-- ===== src/Voice/Crypto/CryptoTests.antt =====
-- The theorems on the voice encryption at concrete inputs, with a stand-in for AES that turns a
-- block round.
use baston.Prelude.{
  ℕ, ◌≡◌, All-replicate, refl, ap, sym, ◌∙◌, arith, some, List, [], ◌∷◌, ◌++◌, map, length,
  length-append, append-nil, append_assoc, replicate, get_or, none, ◌<◌,
}
use baston.Prelude.Bytes.{IsByte}
use baston.Voice.Crypto.{new, ocb_encrypt, ocb_decrypt, encrypt, decrypt, accept, increment}
use baston.Voice.Crypto.Nonce.{IsNonce, moved_on, ocb_decrypt-ocb_encrypt}
use baston.Voice.Crypto.Replay.{decrypt-twice}
use baston.Voice.Crypto.Stream.{encrypt_all, decrypt_all, decrypt-encrypt, decrypt_all-encrypt_all}

turn : List ℕ → List ℕ
turn [] = []
turn (x ∷ xs) = turn xs ++ x ∷ []

length-turn : (xs : List ℕ) → length (turn xs) ≡ length xs
unfolding turn
length-turn [] = refl
length-turn (x ∷ xs) = omega (arith, length-append (turn xs) (x ∷ []), length-turn xs)

turn-append : (xs ys : List ℕ) → turn (xs ++ ys) ≡ turn ys ++ turn xs
unfolding turn
turn-append [] ys = sym (append-nil (turn ys))
turn-append (x ∷ xs) ys =
    ap (λ t. t ++ x ∷ []) (turn-append xs ys) ∙ append_assoc (turn ys) (turn xs) (x ∷ [])

turn-turn : (xs : List ℕ) → turn (turn xs) ≡ xs
unfolding turn
turn-turn [] = refl
turn-turn (x ∷ xs) = turn-append (turn xs) (x ∷ []) ∙ ap (λ t. x ∷ t) (turn-turn xs)

abbrev start : List ℕ
start = 255 ∷ replicate 15 7

start-IsNonce : IsNonce start
start-IsNonce = (refl, (omega arith, All-replicate IsByte 15 7 (omega arith)))

ocb_decrypt-ocb_encrypt_example :
    ocb_decrypt turn turn (ocb_encrypt turn turn (replicate 20 3) start).0 start
    ≡ (replicate 20 3, (ocb_encrypt turn turn (replicate 20 3) start).1)
ocb_decrypt-ocb_encrypt_example =
    ocb_decrypt-ocb_encrypt turn turn (λ b h. length-turn b ∙ h) (λ b h. turn-turn b)
      (replicate 20 3) start refl

decrypt_all-encrypt_all_example :
    decrypt_all turn turn
      (new start start)
      (encrypt_all turn turn (new start start) (replicate 20 3 ∷ [] ∷ []))
    ≡ map some (replicate 20 3 ∷ [] ∷ [])
unfolding new
decrypt_all-encrypt_all_example =
    decrypt_all-encrypt_all turn turn (λ b h. length-turn b ∙ h) (λ b h. turn-turn b)
      (new start start) (new start start) (replicate 20 3 ∷ [] ∷ []) refl start-IsNonce

abbrev first_packet : List ℕ
first_packet = (encrypt turn turn (new start start) (replicate 20 3)).1

first_packet-accepted :
    decrypt turn turn (new start start) first_packet
    ≡ (accept (new start start) (moved_on (increment start)), some (replicate 20 3))
unfolding new
first_packet-accepted =
    decrypt-encrypt turn turn (λ b h. length-turn b ∙ h) (λ b h. turn-turn b) (new start start)
      (new start start) (replicate 20 3) refl start-IsNonce

head-first_packet : get_or first_packet 0 0 < 256
unfolding encrypt new increment
head-first_packet = omega arith

decrypt-twice_example :
    decrypt turn turn (accept (new start start) (moved_on (increment start))) first_packet
    ≡ (accept (new start start) (moved_on (increment start)), none)
unfolding new
decrypt-twice_example =
    decrypt-twice turn turn (new start start) first_packet
      (accept (new start start) (moved_on (increment start))) (replicate 20 3) first_packet-accepted
      (omega arith) refl head-first_packet
