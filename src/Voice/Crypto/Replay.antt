-- ===== src/Voice/Crypto/Replay.antt =====
-- A packet that was accepted is not accepted again right after.
use baston.Prelude.{
  ℕ, ◌+◌, ◌≡◌, ◌≢◌, ◌<◌, refl, sym, ap, ◌∙◌, arith, true, false, ◌&&◌, Option, none, some, List,
  length, take, drop, get_or, set, get_or-set_self, inl, inr, Bool-cases, Option-cases, ltb, ◌==◌,
  bit_and,
}
use mathlib.Core.Path.{subst}
use baston.Prelude.Bits.{bit_and-ones}
use baston.Voice.Session.{same_bytes}
use baston.Voice.Crypto.{
  CryptState, Moved, ocb_decrypt, in_order, wrapped_diff, reordered, not_replayed, move_iv, accept,
  decrypt,
}

reordered-same : (ivbyte : ℕ) (iv : List ℕ) → get_or iv 0 0 ≡ ivbyte → reordered ivbyte iv ≡ none
unfolding reordered
reordered-same ivbyte iv same =
    let less : ltb ivbyte (get_or iv 0 0) ≡ false = ground (arith, same) in
    let more : ltb (get_or iv 0 0) ivbyte ≡ false = ground (arith, same) in
    rw (less, more, reordered) refl

-- Where a move ends: at the packet's byte.
Ends : ℕ → Option Moved → Type 0
Ends ivbyte none = Unit
Ends ivbyte (some m) = get_or m.iv 0 0 ≡ ivbyte

reordered-Ends : (ivbyte : ℕ) (iv : List ℕ) → 0 < length iv → Ends ivbyte (reordered ivbyte iv)
unfolding reordered Ends
reordered-Ends ivbyte iv n =
    let iv0 = get_or iv 0 0 in
    let d = wrapped_diff ivbyte iv0 in
    elim (Bool-cases (ltb ivbyte iv0 && (ltb 226 d && ltb d 256))) [
      | inl a ↦ rw (a, reordered) (get_or-set_self iv 0 ivbyte 0 n)
      | inr a ↦ elim (Bool-cases (ltb iv0 ivbyte && (ltb 226 d && ltb d 256))) [
        | inl b ↦ rw (a, b, reordered) refl
        | inr b ↦ elim (Bool-cases (ltb iv0 ivbyte && ltb 256 d)) [
          | inl c ↦ rw (a, b, c, reordered) (get_or-set_self iv 0 ivbyte 0 n)
          | inr c ↦ elim (Bool-cases (ltb ivbyte iv0 && ltb 256 d)) [
            | inl e ↦ rw (a, b, c, e, reordered) refl
            | inr e ↦ rw (a, b, c, e, reordered) tt
          ]
        ]
      ]
    ]

in_order-Ends : (ivbyte : ℕ) (iv : List ℕ) → 0 < length iv → Ends ivbyte (in_order ivbyte iv)
unfolding in_order Ends
in_order-Ends ivbyte iv n = elim (Bool-cases (ltb (get_or iv 0 0) ivbyte)) [
  | inl a ↦ rw (a, in_order) (get_or-set_self iv 0 ivbyte 0 n)
  | inr a ↦ elim (Bool-cases (ltb ivbyte (get_or iv 0 0))) [
    | inl b ↦ rw (a, b, in_order) refl
    | inr b ↦ rw (a, b, in_order) tt
  ]
]

-- A move in order is never taken back.
Final : Option Moved → Type 0
Final none = Unit
Final (some m) = m.restore ≡ false

in_order-Final : (ivbyte : ℕ) (iv : List ℕ) → Final (in_order ivbyte iv)
unfolding in_order Final
in_order-Final ivbyte iv = elim (Bool-cases (ltb (get_or iv 0 0) ivbyte)) [
  | inl a ↦ rw (a, in_order) refl
  | inr a ↦ elim (Bool-cases (ltb ivbyte (get_or iv 0 0))) [
    | inl b ↦ rw (a, b, in_order) refl
    | inr b ↦ rw (a, b, in_order) tt
  ]
]

-- What is behind a move that the state allowed.
record IsMove (st : CryptState) (ivbyte : ℕ) (m : Moved) : Type 0 where
  pub head : get_or m.iv 0 0 ≡ ivbyte
  pub again : m.restore ≡ true → reordered ivbyte st.decrypt_iv ≡ some m
  pub late : m.restore ≡ true → (bit_and (get_or st.decrypt_iv 0 0 + 1) 0xFF == ivbyte) ≡ false

none-some : {A : Type 0} {a : A} → none ≢ some a
none-some h = cc

some-same : (m m' : Moved) → some m' ≡ some m → m' ≡ m
some-same m m' h = ground (arith, h)

not_replayed-same : (history : List ℕ) (m m' : Moved) → not_replayed history m' ≡ some m → m' ≡ m
unfolding not_replayed
not_replayed-same history m m' h =
    elim (Bool-cases (get_or history (get_or m'.iv 0 0) 0 == get_or m'.iv 1 0)) [
      | inl seen ↦ absurd (none-some (sym (rw (seen, not_replayed) refl) ∙ h))
      | inr fresh ↦ some-same m m' (sym (rw (fresh, not_replayed) refl) ∙ h)
    ]

module _ (st : CryptState) (ivbyte : ℕ) where
  move_iv-next :
      (bit_and (get_or st.decrypt_iv 0 0 + 1) 0xFF == ivbyte) ≡ true
      → move_iv st ivbyte ≡ in_order ivbyte st.decrypt_iv
  unfolding move_iv
  move_iv-next next = rw (next, move_iv) refl

  move_iv-refused :
      (bit_and (get_or st.decrypt_iv 0 0 + 1) 0xFF == ivbyte) ≡ false
      → reordered ivbyte st.decrypt_iv ≡ none
      → move_iv st ivbyte ≡ none
  unfolding move_iv
  move_iv-refused apart refused = rw (apart, move_iv) (rw refused refl)

  move_iv-apart :
      (m : Moved)
      → (bit_and (get_or st.decrypt_iv 0 0 + 1) 0xFF == ivbyte) ≡ false
      → reordered ivbyte st.decrypt_iv ≡ some m
      → move_iv st ivbyte ≡ not_replayed st.decrypt_history m
  unfolding move_iv
  move_iv-apart m apart e = rw (apart, move_iv) (rw e refl)

move_iv-IsMove :
    (st : CryptState) (ivbyte : ℕ) (m : Moved)
    → 0 < length st.decrypt_iv
    → move_iv st ivbyte ≡ some m
    → IsMove st ivbyte m
unfolding Ends Final
move_iv-IsMove st ivbyte m n h =
    elim (Bool-cases (bit_and (get_or st.decrypt_iv 0 0 + 1) 0xFF == ivbyte)) [
      | inl next ↦
          let e : in_order ivbyte st.decrypt_iv ≡ some m = sym (move_iv-next st ivbyte next) ∙ h in
          let f : m.restore ≡ false = subst Final e (in_order-Final ivbyte st.decrypt_iv) in
          record {
            head = subst (Ends ivbyte) e (in_order-Ends ivbyte st.decrypt_iv n);
            again = λ k. absurd (ground (arith, f, k));
            late = λ k. absurd (ground (arith, f, k));
          }
      | inr apart ↦ elim (Option-cases (reordered ivbyte st.decrypt_iv)) [
        | inl refused ↦ absurd (none-some (sym (move_iv-refused st ivbyte apart refused) ∙ h))
        | inr (m', e) ↦
            let same : m' ≡ m =
              not_replayed-same st.decrypt_history m m'
                (sym (move_iv-apart st ivbyte m' apart e) ∙ h) in
            let f = e ∙ ap some same in
            record {
              head = subst (Ends ivbyte) f (reordered-Ends ivbyte st.decrypt_iv n);
              again = λ k. f;
              late = λ k. apart;
            }
      ]
    ]

-- The same byte again, behind the move that it made.
module _ (st : CryptState) (ivbyte : ℕ) (m : Moved) (x : IsMove st ivbyte m)
    (wide : get_or m.iv 0 0 < length st.decrypt_history) where
  final_iv : m.restore ≡ false → (accept st m).decrypt_iv ≡ m.iv
  unfolding accept
  final_iv f = rw f refl

  kept_iv : m.restore ≡ true → (accept st m).decrypt_iv ≡ st.decrypt_iv
  unfolding accept
  kept_iv f = rw f refl

  no_step : (bit_and (ivbyte + 1) 0xFF == ivbyte) ≡ false
  no_step = ground (arith, bit_and-ones 8 (ivbyte + 1))

  remembered : not_replayed (accept st m).decrypt_history m ≡ none
  unfolding not_replayed accept
  remembered =
      let seen : (get_or (set st.decrypt_history (get_or m.iv 0 0) (get_or m.iv 1 0))
              (get_or m.iv 0 0) 0
            == get_or m.iv 1 0)
          ≡ true =
        ground
          (arith, get_or-set_self st.decrypt_history (get_or m.iv 0 0) (get_or m.iv 1 0) 0 wide) in
      rw seen refl

  move_iv-again : move_iv (accept st m) ivbyte ≡ none
  move_iv-again = elim (Bool-cases m.restore) [
    | inr f ↦
        let at : get_or (accept st m).decrypt_iv 0 0 ≡ ivbyte =
          ap (λ iv. get_or iv 0 0) (final_iv f) ∙ x.head in
        move_iv-refused (accept st m) ivbyte (rw at no_step)
          (reordered-same ivbyte (accept st m).decrypt_iv at)
    | inl f ↦
        move_iv-apart (accept st m) ivbyte m (rw (kept_iv f) (x.late f))
          (rw (kept_iv f) (x.again f))
        ∙ remembered
  ]

module _ (aes_encrypt aes_decrypt : List ℕ → List ℕ) where
  decrypt-refused :
      (st : CryptState) (packet : List ℕ)
      → move_iv st (get_or packet 0 0) ≡ none
      → decrypt aes_encrypt aes_decrypt st packet ≡ (st, none)
  unfolding decrypt
  decrypt-refused st packet h = elim (Bool-cases (ltb (length packet) 4)) [
    | inl short ↦ rw (short, decrypt) refl
    | inr long ↦ rw (long, decrypt) (rw h refl)
  ]

  module _ (st : CryptState) (packet : List ℕ) (st' : CryptState) (payload : List ℕ)
      (h : decrypt aes_encrypt aes_decrypt st packet ≡ (st', some payload)) where
    not_refused : decrypt aes_encrypt aes_decrypt st packet ≢ (st, none)
    not_refused e = none-some (ap (λ t. t.1) (sym e ∙ h))

    decrypt-accepts : (m : Moved) → move_iv st (get_or packet 0 0) ≡ some m → st' ≡ accept st m
    unfolding decrypt
    decrypt-accepts m moved = elim (Bool-cases (ltb (length packet) 4)) [
      | inl short ↦ absurd (not_refused (rw (short, decrypt) refl))
      | inr long ↦
          let opened = ocb_decrypt aes_encrypt aes_decrypt (drop 4 packet) m.iv in
          elim (Bool-cases (same_bytes (take 3 opened.1) (take 3 (drop 1 packet)))) [
            | inr forged ↦ absurd (not_refused (rw (long, decrypt) (rw (moved, forged) refl)))
            | inl genuine ↦
                let e : decrypt aes_encrypt aes_decrypt st packet ≡ (accept st m, some opened.0) =
                  rw (long, decrypt) (rw (moved, genuine) refl) in
                ap (λ t. t.0) (sym h ∙ e)
          ]
    ]

    -- A packet that was accepted and arrives again right after is refused and changes nothing, if
    -- the nonce has a byte and the history an entry for each byte.
    pub decrypt-twice :
        0 < length st.decrypt_iv
        → length st.decrypt_history ≡ 256
        → get_or packet 0 0 < 256
        → decrypt aes_encrypt aes_decrypt st' packet ≡ (st', none)
    decrypt-twice n wide byte = elim (Option-cases (move_iv st (get_or packet 0 0))) [
      | inl refused ↦ absurd (not_refused (decrypt-refused st packet refused))
      | inr (m, moved) ↦
          let x = move_iv-IsMove st (get_or packet 0 0) m n moved in
          rw (decrypt-accepts m moved) (
            decrypt-refused (accept st m) packet
              (move_iv-again st (get_or packet 0 0) m x (omega (arith, x.head, wide, byte))))
    ]
