-- ===== src/Voice/Crypto/Ocb.antt =====
-- What was encrypted under a nonce is decrypted under it, and both sides compute one tag.
use baston.Prelude.{
  ℕ, zero, suc, ◌+◌, ◌-◌, ◌≡◌, ◌≤◌, ◌<◌, refl, sym, ap, ◌∙◌, arith, true, false, List, [], ◌∷◌,
  ◌++◌, length, take, drop, length-append, length-drop, length-take-le, take-append, drop-append,
  inl, inr, Bool-cases, ltb,
}
use baston.Prelude.Xor.{xor, xor_twice, length-xor, xor_twice_short}
use baston.Voice.Crypto.{
  times2, times3, length_block, encrypt_last, encrypt_loop, decrypt_last, decrypt_loop,
}
use baston.Voice.Crypto.Blocks.{length-times2, length-times3, length-length_block}

take-whole : (xs : List ℕ) (n : ℕ) → n ≤ length xs → take n xs ++ drop n xs ≡ xs
take-whole xs zero h = refl
take-whole [] (suc n) h = absurd (omega arith)
take-whole (x ∷ xs) (suc n) h = ap (λ t. x ∷ t) (take-whole xs n (omega arith))

whole_length : (n h r t : ℕ) → 16 < n → h ≡ 16 → r ≡ t → t ≡ n - 16 → h + r ≡ n
whole_length n h r t long a b c = omega arith

fuel_left :
    (fuel : ℕ) (plain : List ℕ) → length plain ≤ 16 + suc fuel → length (drop 16 plain) ≤ 16 + fuel
fuel_left fuel plain enough = omega (arith, length-drop 16 plain)

module _ (aes_encrypt aes_decrypt : List ℕ → List ℕ)
    (sized : (b : List ℕ) → length b ≡ 16 → length (aes_encrypt b) ≡ 16)
    (inverse : (b : List ℕ) → length b ≡ 16 → aes_decrypt (aes_encrypt b) ≡ b) where
  module _ (delta0 checksum plain : List ℕ) (d : length delta0 ≡ 16)
      (short : length plain ≤ 16) where
    pad : ℕ → List ℕ
    pad n = aes_encrypt (xor (length_block n) (times2 delta0))

    length-pad : (n : ℕ) → length (pad n) ≡ 16
    unfolding pad
    length-pad n = sized (xor (length_block n) (times2 delta0)) (
        length-xor (length_block n) (times2 delta0)
          (length-length_block n ∙ sym (length-times2 delta0 ∙ d))
        ∙ length-length_block n)

    -- The last part in full, and as it is sent.
    filled : List ℕ
    filled = plain ++ drop (length plain) (pad (length plain))

    sent : List ℕ
    sent = take (length plain) (xor (pad (length plain)) filled)

    length-filled : length filled ≡ 16
    unfolding filled
    length-filled =
        length-append plain (drop (length plain) (pad (length plain)))
        ∙ omega (
          arith,
          length-drop (length plain) (pad (length plain)),
          length-pad (length plain),
          short,
        )

    length-sent : length sent ≡ length plain
    unfolding sent
    length-sent = length-take-le (length plain) (xor (pad (length plain)) filled) (
        omega (
          arith,
          short,
          length-pad (length plain),
          length-filled,
          length-xor (pad (length plain)) filled,
        ))

    opened :
        xor (take (length sent) (pad (length sent))) sent ++ drop (length sent) (pad (length sent))
        ≡ filled
    unfolding sent filled
    opened =
        ap (λ m. xor (take m (pad m)) sent ++ drop m (pad m)) length-sent
        ∙ ap (λ t. t ++ drop (length plain) (pad (length plain)))
            (xor_twice_short (pad (length plain)) plain
              (omega (arith, short, length-pad (length plain))))

    outcome : ℕ → List ℕ → List ℕ × List ℕ
    outcome m f = (take m f, aes_encrypt (xor (times3 (times2 delta0)) (xor checksum f)))

    outcome-filled :
        outcome (length plain) filled
        ≡ (plain, aes_encrypt (xor (times3 (times2 delta0)) (xor checksum filled)))
    unfolding outcome filled
    outcome-filled = λ i. (
      take-append plain (drop (length plain) (pad (length plain))) i,
      aes_encrypt (xor (times3 (times2 delta0)) (xor checksum filled)),
    )

    pub decrypt_last-encrypt_last :
        decrypt_last aes_encrypt aes_decrypt delta0 checksum
          (encrypt_last aes_encrypt aes_decrypt delta0 checksum plain).0
        ≡ (plain, (encrypt_last aes_encrypt aes_decrypt delta0 checksum plain).1)
    unfolding decrypt_last encrypt_last sent filled pad outcome
    decrypt_last-encrypt_last =
        ap (outcome (length sent)) opened
        ∙ (ap (λ m. outcome m filled) length-sent ∙ outcome-filled)

  abbrev enc : ℕ → List ℕ → List ℕ → List ℕ → List ℕ × List ℕ
  enc = encrypt_loop aes_encrypt aes_decrypt

  abbrev dec : ℕ → List ℕ → List ℕ → List ℕ → List ℕ × List ℕ
  dec = decrypt_loop aes_encrypt aes_decrypt

  -- One round of each loop.
  abbrev front : List ℕ → List ℕ → List ℕ
  front delta chunk = xor delta (aes_encrypt (xor delta chunk))

  abbrev back : List ℕ → List ℕ → List ℕ
  back delta chunk = xor delta (aes_decrypt (xor delta chunk))

  encrypt_loop-zero :
      (delta checksum plain : List ℕ)
      → enc zero delta checksum plain ≡ encrypt_last aes_encrypt aes_decrypt delta checksum plain
  unfolding encrypt_loop
  encrypt_loop-zero delta checksum plain = refl

  zero_in_step :
      (delta checksum plain : List ℕ)
      → length delta ≡ 16
      → length plain ≤ 16
      → dec zero delta checksum (enc zero delta checksum plain).0
        ≡ (plain, (enc zero delta checksum plain).1)
  unfolding encrypt_loop decrypt_loop
  zero_in_step delta checksum plain d short = decrypt_last-encrypt_last delta checksum plain d short

  module _ (fuel : ℕ) (delta checksum text : List ℕ) where
    encrypt_loop-short :
        ltb 16 (length text) ≡ false
        → enc (suc fuel) delta checksum text
          ≡ encrypt_last aes_encrypt aes_decrypt delta checksum text
    unfolding encrypt_loop
    encrypt_loop-short h = rw (h, encrypt_loop) refl

    decrypt_loop-short :
        ltb 16 (length text) ≡ false
        → dec (suc fuel) delta checksum text
          ≡ decrypt_last aes_encrypt aes_decrypt delta checksum text
    unfolding decrypt_loop
    decrypt_loop-short h = rw (h, decrypt_loop) refl

    encrypt_loop-long :
        ltb 16 (length text) ≡ true
        → enc (suc fuel) delta checksum text ≡ (
          front (times2 delta) (take 16 text)
              ++ (enc fuel (times2 delta) (xor checksum (take 16 text)) (drop 16 text)).0,
          (enc fuel (times2 delta) (xor checksum (take 16 text)) (drop 16 text)).1,
        )
    unfolding encrypt_loop
    encrypt_loop-long h = rw (h, encrypt_loop) refl

    decrypt_loop-long :
        ltb 16 (length text) ≡ true
        → dec (suc fuel) delta checksum text ≡ (
          back (times2 delta) (take 16 text)
              ++ (dec fuel
                  (times2 delta)
                  (xor checksum (back (times2 delta) (take 16 text)))
                  (drop 16 text)).0,
          (dec fuel
              (times2 delta)
              (xor checksum (back (times2 delta) (take 16 text)))
              (drop 16 text)).1,
        )
    unfolding decrypt_loop
    decrypt_loop-long h = rw (h, decrypt_loop) refl

  module _ (delta chunk : List ℕ) (d : length delta ≡ 16) (c : length chunk ≡ 16) where
    length-masked : length (xor delta chunk) ≡ 16
    length-masked = length-xor delta chunk (d ∙ sym c) ∙ d

    length-front : length (front delta chunk) ≡ 16
    length-front =
        length-xor delta (aes_encrypt (xor delta chunk))
          (d ∙ sym (sized (xor delta chunk) length-masked))
        ∙ d

    back-front : back delta (front delta chunk) ≡ chunk
    back-front =
        rw
          (
            xor_twice delta (aes_encrypt (xor delta chunk))
                (d ∙ sym (sized (xor delta chunk) length-masked)),
            inverse (xor delta chunk) length-masked,
          )
          (xor_twice delta chunk (d ∙ sym c))

  length-encrypt_last :
      (delta checksum plain : List ℕ)
      → length delta ≡ 16
      → length plain ≤ 16
      → length (encrypt_last aes_encrypt aes_decrypt delta checksum plain).0 ≡ length plain
  unfolding encrypt_last sent filled pad
  length-encrypt_last delta checksum plain d short = length-sent delta checksum plain d short

  length-short :
      (fuel : ℕ) (delta checksum plain : List ℕ)
      → length delta ≡ 16
      → ltb 16 (length plain) ≡ false
      → length (enc (suc fuel) delta checksum plain).0 ≡ length plain
  length-short fuel delta checksum plain d short =
      ap (λ o. length o.0) (encrypt_loop-short fuel delta checksum plain short)
      ∙ length-encrypt_last delta checksum plain d (ground (arith, short))

  length-long :
      (fuel : ℕ) (delta checksum plain : List ℕ)
      → length delta ≡ 16
      → ltb 16 (length plain) ≡ true
      → length (enc fuel (times2 delta) (xor checksum (take 16 plain)) (drop 16 plain)).0
        ≡ length (drop 16 plain)
      → length (enc (suc fuel) delta checksum plain).0 ≡ length plain
  length-long fuel delta checksum plain d long ih =
      let c : length (take 16 plain) ≡ 16 = length-take-le 16 plain (ground (arith, long)) in
      ap (λ o. length o.0) (encrypt_loop-long fuel delta checksum plain long)
      ∙ (length-append (front (times2 delta) (take 16 plain))
            (enc fuel (times2 delta) (xor checksum (take 16 plain)) (drop 16 plain)).0
          ∙ whole_length (length plain) _ _ _ (ground (arith, long))
              (length-front (times2 delta) (take 16 plain) (length-times2 delta ∙ d) c) ih
              (length-drop 16 plain))

  pub length-encrypt_loop :
      (fuel : ℕ) (delta checksum plain : List ℕ)
      → length delta ≡ 16
      → length plain ≤ 16 + fuel
      → length (enc fuel delta checksum plain).0 ≡ length plain
  length-encrypt_loop zero delta checksum plain d enough =
      ap (λ o. length o.0) (encrypt_loop-zero delta checksum plain)
      ∙ length-encrypt_last delta checksum plain d (omega arith)
  length-encrypt_loop (suc fuel) delta checksum plain d enough =
      elim (Bool-cases (ltb 16 (length plain))) [
        | inr short ↦ length-short fuel delta checksum plain d short
        | inl long ↦ length-long fuel delta checksum plain d long (
            length-encrypt_loop fuel (times2 delta) (xor checksum (take 16 plain)) (drop 16 plain)
              (length-times2 delta ∙ d) (fuel_left fuel plain enough))
      ]

  split_at :
      (xs ys : List ℕ) → length xs ≡ 16 → (take 16 (xs ++ ys) ≡ xs) × (drop 16 (xs ++ ys) ≡ ys)
  split_at xs ys h = (
    ap (λ n. take n (xs ++ ys)) (sym h) ∙ take-append xs ys,
    ap (λ n. drop n (xs ++ ys)) (sym h) ∙ drop-append xs ys,
  )

  short_in_step :
      (fuel : ℕ) (delta checksum plain : List ℕ)
      → length delta ≡ 16
      → ltb 16 (length plain) ≡ false
      → dec (suc fuel) delta checksum (enc (suc fuel) delta checksum plain).0
        ≡ (plain, (enc (suc fuel) delta checksum plain).1)
  short_in_step fuel delta checksum plain d short =
      let cipher = encrypt_last aes_encrypt aes_decrypt delta checksum plain in
      let n = length-encrypt_last delta checksum plain d (ground (arith, short)) in
      rw (encrypt_loop-short fuel delta checksum plain short) (
        decrypt_loop-short fuel delta checksum cipher.0 (ap (ltb 16) n ∙ short)
        ∙ decrypt_last-encrypt_last delta checksum plain d (ground (arith, short)))

  long_in_step :
      (fuel : ℕ) (delta checksum plain : List ℕ)
      → length delta ≡ 16
      → ltb 16 (length plain) ≡ true
      → dec fuel
          (times2 delta)
          (xor checksum (take 16 plain))
          (enc fuel (times2 delta) (xor checksum (take 16 plain)) (drop 16 plain)).0
        ≡ (
          drop 16 plain,
          (enc fuel (times2 delta) (xor checksum (take 16 plain)) (drop 16 plain)).1,
        )
      → length (drop 16 plain) ≤ 16 + fuel
      → dec (suc fuel) delta checksum (enc (suc fuel) delta checksum plain).0
        ≡ (plain, (enc (suc fuel) delta checksum plain).1)
  long_in_step fuel delta checksum plain d long ih enough =
      let delta' = times2 delta in
      let d' = length-times2 delta ∙ d in
      let chunk = take 16 plain in
      let c : length chunk ≡ 16 = length-take-le 16 plain (ground (arith, long)) in
      let head = front delta' chunk in
      let h = length-front delta' chunk d' c in
      let rest = enc fuel delta' (xor checksum chunk) (drop 16 plain) in
      let n = length-encrypt_loop fuel delta' (xor checksum chunk) (drop 16 plain) d' enough in
      let parts = split_at head rest.0 h in
      let still : ltb 16 (length (head ++ rest.0)) ≡ true =
        ground (arith, length-append head rest.0, h, n, length-drop 16 plain, long) in
      rw (encrypt_loop-long fuel delta checksum plain long) (
        decrypt_loop-long fuel delta checksum (head ++ rest.0) still
        ∙ rw (parts.0, parts.1, back-front delta' chunk d' c, ih)
            (λ i. (take-whole plain 16 (ground (arith, long)) i, rest.1)))

  -- Both loops in step.
  pub decrypt_loop-encrypt_loop :
      (fuel : ℕ) (delta checksum plain : List ℕ)
      → length delta ≡ 16
      → length plain ≤ 16 + fuel
      → dec fuel delta checksum (enc fuel delta checksum plain).0
        ≡ (plain, (enc fuel delta checksum plain).1)
  decrypt_loop-encrypt_loop zero delta checksum plain d enough =
      zero_in_step delta checksum plain d (omega arith)
  decrypt_loop-encrypt_loop (suc fuel) delta checksum plain d enough =
      elim (Bool-cases (ltb 16 (length plain))) [
        | inr short ↦ short_in_step fuel delta checksum plain d short
        | inl long ↦
            long_in_step fuel delta checksum plain d long
              (decrypt_loop-encrypt_loop fuel (times2 delta) (xor checksum (take 16 plain))
                (drop 16 plain) (length-times2 delta ∙ d) (fuel_left fuel plain enough))
              (fuel_left fuel plain enough)
      ]

  tag-last :
      (delta checksum plain : List ℕ)
      → length delta ≡ 16
      → length checksum ≡ 16
      → length plain ≤ 16
      → length (encrypt_last aes_encrypt aes_decrypt delta checksum plain).1 ≡ 16
  unfolding encrypt_last filled pad
  tag-last delta checksum plain d c short =
      let f = length-filled delta checksum plain d short in
      let full = filled delta checksum plain d short in
      let t : length (times3 (times2 delta)) ≡ 16 =
        length-times3 (times2 delta) ∙ (length-times2 delta ∙ d) in
      let x : length (xor checksum full) ≡ 16 = length-xor checksum full (c ∙ sym f) ∙ c in
      sized (xor (times3 (times2 delta)) (xor checksum full))
        (length-xor (times3 (times2 delta)) (xor checksum full) (t ∙ sym x) ∙ t)

  tag-long :
      (fuel : ℕ) (delta checksum plain : List ℕ)
      → ltb 16 (length plain) ≡ true
      → length (enc fuel (times2 delta) (xor checksum (take 16 plain)) (drop 16 plain)).1 ≡ 16
      → length (enc (suc fuel) delta checksum plain).1 ≡ 16
  tag-long fuel delta checksum plain long ih =
      ap (λ o. length o.1) (encrypt_loop-long fuel delta checksum plain long) ∙ ih

  pub tag-encrypt_loop :
      (fuel : ℕ) (delta checksum plain : List ℕ)
      → length delta ≡ 16
      → length checksum ≡ 16
      → length plain ≤ 16 + fuel
      → length (enc fuel delta checksum plain).1 ≡ 16
  tag-encrypt_loop zero delta checksum plain d c enough =
      ap (λ o. length o.1) (encrypt_loop-zero delta checksum plain)
      ∙ tag-last delta checksum plain d c (omega arith)
  tag-encrypt_loop (suc fuel) delta checksum plain d c enough =
      elim (Bool-cases (ltb 16 (length plain))) [
        | inr short ↦
            ap (λ o. length o.1) (encrypt_loop-short fuel delta checksum plain short)
            ∙ tag-last delta checksum plain d c (ground (arith, short))
        | inl long ↦
            let chunk : length (take 16 plain) ≡ 16 =
              length-take-le 16 plain (ground (arith, long)) in
            tag-long fuel delta checksum plain long (
              tag-encrypt_loop fuel (times2 delta) (xor checksum (take 16 plain)) (drop 16 plain)
                (length-times2 delta ∙ d) (length-xor checksum (take 16 plain) (c ∙ sym chunk) ∙ c)
                (fuel_left fuel plain enough))
      ]
