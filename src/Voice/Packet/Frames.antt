-- ===== src/Voice/Packet/Frames.antt =====
-- The loop of `parse` over the CELT and Speex frames never runs out of fuel, and what a packet
-- holds in front of its position is read without a look at the position.
use baston.Prelude.{
  ℕ, zero, suc, ◌+◌, ◌%◌, ◌^◌, ◌≤◌, ◌<◌, ◌≡◌, Option, none, refl, sym, ap, ◌∙◌, arith, bit_and,
  Bool, true, false, some, List, [], ◌∷◌, ◌++◌, append_assoc, ◌==◌, if◌then◌else◌, length,
  length-append, inl, inr, Bool-cases, Option-cases,
}
use baston.Prelude.Parser.{Parser, ◌>>=◌, pure, continue}
use baston.Voice.Pds.{PdsReader, advance, read_from, read_u64}
use baston.Voice.Packet.{skip, rounds, frames}
use baston.Voice.Packet.Locality.{IsUsed, IsLocal, none-some, pure-IsLocal, bind-IsLocal}
use baston.Voice.Packet.Reads.{read_u64-IsLocal, skip-IsLocal}

-- A run of the loop that succeeded used up some bytes, and succeeds in the same way whatever
-- follows them, on as much fuel as there are bytes.
pub record IsRead (r r' : PdsReader) : Type 0 where
  pub used : List ℕ
  pub front : r.unread ≡ used ++ r'.unread
  pub moved : r'.pos ≡ r.pos + length used
  pub again :
      (fuel : ℕ) (rest : List ℕ)
      → length used ≤ fuel
      → frames fuel (advance (used ++ rest) r.pos) ≡ some (tt, advance rest r'.pos)

last : ℕ → Bool
last v = bit_and (v % 2 ^ 8) 0x80 == 0

-- The varint of a round and the bytes of its frame.
round : Parser PdsReader ℕ
round = read_u64 >>= (λ v. skip (bit_and (v % 2 ^ 8) 0x7F) >>= (λ _. pure v))

round-IsLocal : IsLocal round
unfolding round
round-IsLocal =
    bind-IsLocal read_u64 (λ v. skip (bit_and (v % 2 ^ 8) 0x7F) >>= (λ _. pure v)) read_u64-IsLocal
      (λ v.
        bind-IsLocal (skip (bit_and (v % 2 ^ 8) 0x7F)) (λ _. pure v)
          (skip-IsLocal (bit_and (v % 2 ^ 8) 0x7F)) (λ _. pure-IsLocal v))

after : Option (Unit {0} × PdsReader) → ℕ → ℕ → Parser PdsReader Unit
after spent fuel v r = let rest = rounds spent fuel r in if last v then some (tt, r) else rest

rounds-round :
    (spent : Option (Unit {0} × PdsReader)) (fuel : ℕ) (r : PdsReader)
    → rounds spent (suc fuel) r ≡ continue (round r) (after spent fuel)
unfolding rounds round after last
rounds-round spent fuel r = elim (Option-cases (read_u64 r)) [
  | inl failed ↦ rw (failed, rounds, round) refl
  | inr ((v, s), first) ↦ elim (Option-cases (skip (bit_and (v % 2 ^ 8) 0x7F) s)) [
    | inl failed ↦ rw (first, rounds, round) (rw failed refl)
    | inr ((w, t), second) ↦ rw (first, rounds, round) (rw second refl)
  ]
]

more : ℕ → ℕ → Parser PdsReader Unit
more fuel v r = let rest = frames fuel r in if last v then some (tt, r) else rest

frames-round : (fuel : ℕ) (r : PdsReader) → frames (suc fuel) r ≡ continue (round r) (more fuel)
unfolding frames more after
frames-round fuel r = rounds-round none fuel r

round-nonempty : (r r' : PdsReader) (v : ℕ) (x : IsUsed round r v r') → 1 ≤ length x.used
unfolding round read_u64 read_from
round-nonempty r r' v x = go x.used (x.again [])
  where
    go :
        (us : List ℕ)
        → round (advance (us ++ []) r.pos) ≡ some (v, advance [] r'.pos)
        → 1 ≤ length us
    go [] h = cc
    go (u ∷ us) h = omega arith

-- A round that used some bytes can be run on any fuel that is left for it.
module _ (r t r' : PdsReader) (v : ℕ) (x : IsUsed round r v t) (left : List ℕ)
    (rest_of : (fuel : ℕ) (rest : List ℕ)
      → length left ≤ fuel
      → more fuel v (advance (left ++ rest) t.pos) ≡ some (tt, advance rest r'.pos)) where
  again_round :
      (fuel : ℕ) (rest : List ℕ)
      → length (x.used ++ left) ≤ fuel
      → frames fuel (advance ((x.used ++ left) ++ rest) r.pos) ≡ some (tt, advance rest r'.pos)
  again_round zero rest enough =
      absurd (omega (arith, enough, round-nonempty r t v x, length-append x.used left))
  again_round (suc fuel) rest enough =
      ap (λ u. frames (suc fuel) (advance u r.pos)) (append_assoc x.used left rest)
      ∙ (frames-round fuel (advance (x.used ++ (left ++ rest)) r.pos)
          ∙ (ap (λ o. continue o (more fuel)) (x.again (left ++ rest))
              ∙ rest_of fuel rest
                  (omega (arith, enough, round-nonempty r t v x, length-append x.used left))))

  round-IsRead : t.unread ≡ left ++ r'.unread → r'.pos ≡ t.pos + length left → IsRead r r'
  round-IsRead front moved = record {
    used = x.used ++ left;
    front = x.front ∙ (ap (λ u. x.used ++ u) front ∙ sym (append_assoc x.used left r'.unread));
    moved = moved ∙ (ap (λ n. n + length left) x.moved ∙ omega (arith, length-append x.used left));
    again = again_round;
  }

last-IsRead : (r t : PdsReader) (v : ℕ) → IsUsed round r v t → last v ≡ true → IsRead r t
unfolding more
last-IsRead r t v x stop =
    round-IsRead r t t v x [] (λ fuel rest enough. rw stop refl) refl (omega arith)

next-IsRead :
    (r t r' : PdsReader) (v : ℕ) → IsUsed round r v t → last v ≡ false → IsRead t r' → IsRead r r'
unfolding more
next-IsRead r t r' v x on y =
    round-IsRead r t r' v x y.used (λ fuel rest enough. rw on (y.again fuel rest enough)) y.front
      y.moved

pub frames-IsRead :
    (fuel : ℕ) (r r' : PdsReader) (u : Unit) → frames fuel r ≡ some (u, r') → IsRead r r'
unfolding more frames rounds IsLocal
frames-IsRead zero r r' u h = absurd (none-some h)
frames-IsRead (suc n) r r' u h =
    let k = sym (frames-round n r) ∙ h in
    elim (Option-cases (round r)) [
      | inl failed ↦ absurd (none-some (sym (ap (λ o. continue o (more n)) failed) ∙ k))
      | inr ((v, t), first) ↦
          let x = round-IsLocal r t v first in
          let j = sym (ap (λ o. continue o (more n)) first) ∙ k in
          elim (Bool-cases (last v)) [
            | inl stop ↦
                let e : t ≡ r' = ground (arith, stop, j) in rw (sym e) (last-IsRead r t v x stop)
            | inr on ↦ next-IsRead r t r' v x on (frames-IsRead n t r' u (ground (arith, on, j)))
          ]
    ]

-- The loop ends before its fuel does: what it would answer without fuel does not matter.
pub rounds-fuel :
    (spent spent' : Option (Unit {0} × PdsReader)) (n m : ℕ) (r : PdsReader)
    → length r.unread < n
    → length r.unread < m
    → rounds spent n r ≡ rounds spent' m r
unfolding after IsLocal
rounds-fuel spent spent' zero m r p q = absurd (omega arith)
rounds-fuel spent spent' (suc n) zero r p q = absurd (omega arith)
rounds-fuel spent spent' (suc n) (suc m) r p q =
    rounds-round spent n r
    ∙ (elim (Option-cases (round r)) [
      | inl failed ↦ rw failed refl
      | inr ((v, t), first) ↦
          let x = round-IsLocal r t v first in
          let shorter : length t.unread < length r.unread =
            omega
              (arith, round-nonempty r t v x, ap length x.front, length-append x.used t.unread) in
          let behind : rounds spent n t ≡ rounds spent' m t =
            rounds-fuel spent spent' n m t (omega (arith, shorter)) (omega (arith, shorter)) in
          rw (first, behind) refl
    ]
        ∙ sym (rounds-round spent' m r))
