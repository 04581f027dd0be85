-- ===== src/Voice/Packet/Reads.antt =====
-- The varints, the skipped bytes and the Opus frame are read from the front, and nothing behind them
-- is looked at.
use baston.Prelude.{
  ℕ, zero, suc, ◌+◌, ◌%◌, ◌^◌, ◌≡◌, refl, ap, ◌∙◌, arith, bit_and, none, some, List, [], ◌∷◌, ◌==◌,
  inl, inr, Bool-cases, Option-cases, ◌-◌,
}
use baston.Prelude.Parser.{Parser, ◌>>=◌, pure}
use baston.Voice.Pds.{
  PdsReader, advance, next_byte, read_raw_byte, be_loop, two_bytes, three_bytes, four_bytes,
  read_behind, read_from, read_u64,
}
use baston.Voice.Packet.{skip, opus_frame}
use baston.Voice.Packet.Locality.{
  IsUsed, IsLocal, pure-IsLocal, bind-IsUsed, bind-IsLocal, like, next_byte-IsLocal,
  be_loop-IsLocal, two_bytes-IsLocal, three_bytes-IsLocal, four_bytes-IsLocal,
}

behind : ℕ → Parser PdsReader ℕ
behind v0 r = read_behind v0 (read_u64 r) r

negated : Parser PdsReader ℕ
negated = read_u64 >>= (λ v. pure 0)

module _ (v0 : ℕ) (r : PdsReader)
    (ih : (s : PdsReader) (a : ℕ) → read_u64 r ≡ some (a, s) → IsUsed read_u64 r a s) where
  as_negated :
      (s : PdsReader)
      → (elim (read_u64 s) [ none ↦ none | some (_, r') ↦ some (0, r') ]) ≡ negated s
  unfolding negated
  as_negated s = elim (Option-cases (read_u64 s)) [
    | inl failed ↦ rw failed refl
    | inr ((a, s'), done) ↦ rw done refl
  ]

  behind-IsUsed : (r' : PdsReader) (a : ℕ) → behind v0 r ≡ some (a, r') → IsUsed (behind v0) r a r'
  unfolding behind read_behind negated IsLocal
  behind-IsUsed r' a h = elim (Bool-cases (bit_and v0 0x80 == 0)) [
    | inl c ↦
        like (behind v0) (pure v0) r r' a (λ s. rw (c, behind, read_behind) refl)
          (pure-IsLocal v0 r r' a) h
    | inr n1 ↦ elim (Bool-cases (bit_and v0 0xC0 == 0x80)) [
      | inl c ↦
          like (behind v0) (two_bytes v0) r r' a (λ s. rw (n1, c, behind, read_behind) refl)
            (two_bytes-IsLocal v0 r r' a) h
      | inr n2 ↦ elim (Bool-cases (bit_and v0 0xE0 == 0xC0)) [
        | inl c ↦
            like (behind v0) (three_bytes v0) r r' a (λ s. rw (n1, n2, c, behind, read_behind) refl)
              (three_bytes-IsLocal v0 r r' a) h
        | inr n3 ↦ elim (Bool-cases (bit_and v0 0xF0 == 0xE0)) [
          | inl c ↦
              like (behind v0) (four_bytes v0) r r' a
                (λ s. rw (n1, n2, n3, c, behind, read_behind) refl) (four_bytes-IsLocal v0 r r' a) h
          | inr n4 ↦ elim (Bool-cases (bit_and v0 0xFC == 0xF0)) [
            | inl c ↦
                like (behind v0) (be_loop 4 0) r r' a
                  (λ s. rw (n1, n2, n3, n4, c, behind, read_behind) refl)
                  (be_loop-IsLocal 4 0 r r' a) h
            | inr n5 ↦ elim (Bool-cases (bit_and v0 0xFC == 0xF4)) [
              | inl c ↦
                  like (behind v0) (be_loop 8 0) r r' a
                    (λ s. rw (n1, n2, n3, n4, n5, c, behind, read_behind) refl)
                    (be_loop-IsLocal 8 0 r r' a) h
              | inr n6 ↦ elim (Bool-cases (bit_and v0 0xFC == 0xF8)) [
                | inl c ↦
                    like (behind v0) negated r r' a
                      (λ s. rw (n1, n2, n3, n4, n5, n6, c, behind, read_behind) (as_negated s))
                      (bind-IsUsed read_u64 (λ v. pure 0) r ih (λ v. pure-IsLocal 0) r' a) h
                | inr n7 ↦
                    like (behind v0) (pure ((2 ^ 64 - (bit_and v0 0x03 + 1)) % 2 ^ 64)) r r' a
                      (λ s. rw (n1, n2, n3, n4, n5, n6, n7, behind, read_behind) refl)
                      (pure-IsLocal ((2 ^ 64 - (bit_and v0 0x03 + 1)) % 2 ^ 64) r r' a) h
              ]
            ]
          ]
        ]
      ]
    ]
  ]

read_u64-IsUsed :
    (xs : List ℕ) (pos : ℕ) (r' : PdsReader) (v : ℕ)
    → read_u64 (advance xs pos) ≡ some (v, r')
    → IsUsed read_u64 (advance xs pos) v r'
unfolding read_u64 read_from behind
read_u64-IsUsed [] pos r' v h = cc
read_u64-IsUsed (v0 ∷ rest) pos r' v h =
    let x =
      behind-IsUsed v0 (advance rest (pos + 1)) (λ s a. read_u64-IsUsed rest (pos + 1) s a) r' v
        h in
    record {
      used = v0 ∷ x.used;
      front = ap (λ t. v0 ∷ t) x.front;
      moved = x.moved ∙ omega arith;
      again = λ more. x.again more;
    }

pub read_u64-IsLocal : IsLocal read_u64
unfolding IsLocal
read_u64-IsLocal r r' v h = read_u64-IsUsed r.unread r.pos r' v h

pub skip-IsLocal : (n : ℕ) → IsLocal (skip n)
unfolding skip read_raw_byte
skip-IsLocal zero = pure-IsLocal tt
skip-IsLocal (suc n) = bind-IsLocal next_byte (λ b. skip n) next_byte-IsLocal (λ b. skip-IsLocal n)

pub opus_frame-IsLocal : IsLocal opus_frame
unfolding opus_frame
opus_frame-IsLocal =
    bind-IsLocal read_u64 (λ hdr. skip (bit_and hdr 0x1FFF)) read_u64-IsLocal
      (λ hdr. skip-IsLocal (bit_and hdr 0x1FFF))
