-- ===== src/Voice/Packet/Locality.antt =====
-- The readers of a voice packet use up bytes from the front and look at no others.
use baston.Prelude.{
  ℕ, zero, suc, ◌+◌, ◌%◌, ◌^◌, ◌≡◌, refl, sym, ap, ◌∙◌, arith, bit_or, ◌*◌, none, some, List, [],
  ◌∷◌, ◌++◌, append_assoc, length, length-append, ◌≢◌, inl, inr, Option-cases,
}
use baston.Prelude.Parser.{Parser, ◌>>=◌, pure, continue}
use baston.Voice.Pds.{PdsReader, advance, next_byte, be_loop, two_bytes, three_bytes, four_bytes}

-- A read that succeeded used up some bytes, and succeeds in the same way whatever follows them.
pub record IsUsed {A : Type 0} (p : Parser PdsReader A) (r : PdsReader) (a : A) (r' : PdsReader)
    : Type 0 where
  pub used : List ℕ
  pub front : r.unread ≡ used ++ r'.unread
  pub moved : r'.pos ≡ r.pos + length used
  pub again : (rest : List ℕ) → p (advance (used ++ rest) r.pos) ≡ some (a, advance rest r'.pos)

module _ {A : Type 0} where
  unfoldable pub IsLocal : Parser PdsReader A → Type 0
  IsLocal p = (r r' : PdsReader) (a : A) → p r ≡ some (a, r') → IsUsed p r a r'

pub none-some : {A : Type 0} {a : A} → none ≢ some a
none-some h = cc

pub pure-IsLocal : {A : Type 0} (a : A) → IsLocal (pure a)
unfolding IsLocal
pure-IsLocal {A} a r r' b h =
    let e : a ≡ b = ground (arith, h) in
    let f : r ≡ r' = ground (arith, h) in
    record {
      used = [];
      front = ap (λ s. s.unread) f;
      moved = ap (λ s. s.pos) (sym f) ∙ omega arith;
      again = λ rest. rw (e, f) refl;
    }

pub bind-IsUsed :
    {A B : Type 0} (m : Parser PdsReader A) (f : A → Parser PdsReader B) (r : PdsReader)
    → ((s : PdsReader) (a : A) → m r ≡ some (a, s) → IsUsed m r a s)
    → ((a : A) → IsLocal (f a))
    → (r' : PdsReader) (b : B) → (m >>= f) r ≡ some (b, r')
    → IsUsed (m >>= f) r b r'
unfolding IsLocal
bind-IsUsed {A} {B} m f r lm lf r' b h = elim (Option-cases (m r)) [
  | inl failed ↦ absurd (none-some (sym (ap (λ o. continue o f) failed) ∙ h))
  | inr ((a, s), first) ↦
      let x = lm s a first in
      let y = lf a s r' b (sym (ap (λ o. continue o f) first) ∙ h) in
      record {
        used = x.used ++ y.used;
        front =
            x.front ∙ (ap (λ u. x.used ++ u) y.front ∙ sym (append_assoc x.used y.used r'.unread));
        moved =
            y.moved
            ∙ (ap (λ n. n + length y.used) x.moved ∙ ground (arith, length-append x.used y.used));
        again = λ rest.
            ap (λ u. continue (m (advance u r.pos)) f) (append_assoc x.used y.used rest)
            ∙ (ap (λ o. continue o f) (x.again (y.used ++ rest)) ∙ y.again rest);
      }
]

pub bind-IsLocal :
    {A B : Type 0} (m : Parser PdsReader A) (f : A → Parser PdsReader B)
    → IsLocal m
    → ((a : A) → IsLocal (f a))
    → IsLocal (m >>= f)
unfolding IsLocal
bind-IsLocal m f lm lf r r' b h = bind-IsUsed m f r (lm r) lf r' b h

-- A reader that agrees with another one uses what that one uses.
pub like :
    {A : Type 0} (p q : Parser PdsReader A) (r r' : PdsReader) (a : A)
    → ((s : PdsReader) → p s ≡ q s)
    → (q r ≡ some (a, r') → IsUsed q r a r')
    → p r ≡ some (a, r')
    → IsUsed p r a r'
like p q r r' a same lq h =
    let x = lq (sym (same r) ∙ h) in
    record {
      used = x.used;
      front = x.front;
      moved = x.moved;
      again = λ rest. same (advance (x.used ++ rest) r.pos) ∙ x.again rest;
    }

next_byte-IsUsed :
    (xs : List ℕ) (pos : ℕ) (r' : PdsReader) (b : ℕ)
    → next_byte (advance xs pos) ≡ some (b, r')
    → IsUsed next_byte (advance xs pos) b r'
unfolding next_byte
next_byte-IsUsed [] pos r' b h = cc
next_byte-IsUsed (x ∷ rest) pos r' b h =
    let e : x ≡ b = ground (arith, h) in
    let f : advance rest (pos + 1) ≡ r' = ground (arith, h) in
    record {
      used = x ∷ [];
      front = ap (λ s. x ∷ s.unread) f;
      moved = ap (λ s. s.pos) (sym f) ∙ omega arith;
      again = λ more. rw (e, sym (ap (λ s. s.pos) f)) refl;
    }

pub next_byte-IsLocal : IsLocal next_byte
unfolding IsLocal
next_byte-IsLocal r r' b h = next_byte-IsUsed r.unread r.pos r' b h

pub be_loop-IsLocal : (n v : ℕ) → IsLocal (be_loop n v)
unfolding be_loop
be_loop-IsLocal zero v = pure-IsLocal v
be_loop-IsLocal (suc n) v =
    bind-IsLocal next_byte (λ b. be_loop n (bit_or (v * 2 ^ 8 % 2 ^ 64) b)) next_byte-IsLocal
      (λ b. be_loop-IsLocal n (bit_or (v * 2 ^ 8 % 2 ^ 64) b))

pub two_bytes-IsLocal : (v0 : ℕ) → IsLocal (two_bytes v0)
unfolding two_bytes
two_bytes-IsLocal v0 = bind-IsLocal next_byte _ next_byte-IsLocal (λ b1. pure-IsLocal _)

pub three_bytes-IsLocal : (v0 : ℕ) → IsLocal (three_bytes v0)
unfolding three_bytes
three_bytes-IsLocal v0 =
    bind-IsLocal next_byte _ next_byte-IsLocal
      (λ b1. bind-IsLocal next_byte _ next_byte-IsLocal (λ b2. pure-IsLocal _))

pub four_bytes-IsLocal : (v0 : ℕ) → IsLocal (four_bytes v0)
unfolding four_bytes
four_bytes-IsLocal v0 = bind-IsLocal next_byte _ next_byte-IsLocal (λ b1.
    bind-IsLocal next_byte _ next_byte-IsLocal
      (λ b2. bind-IsLocal next_byte _ next_byte-IsLocal (λ b3. pure-IsLocal _)))
