-- ===== src/Voice/Router/Sets.antt =====
-- The sets of sessions and the lists of recipients that routing builds: who is in them, in which
-- order.
use baston.Prelude.Map.Ascending.{Ascending, Ascending-add}
use baston.Prelude.Map.{lookup, member, add, member-add}
use baston.Prelude.{
  ℕ, ◌+◌, ◌≤◌, ◌≡◌, refl, ap, ◌∙◌, arith, Bool, false, ◌||◌, none, some, List, [], ◌∷◌, ◌++◌, ltb,
  ◌==◌, All, inl, inr, Bool-cases, Option-cases,
}
use baston.Voice.Channel.{ChannelStore}
use baston.Voice.Session.{ChannelTarget}
use baston.Voice.Router.{
  Recipient, audience, insert_all, insert_channels, insert_sorted, sort_by_session, dedup_behind,
  dedup_by_session, dedup,
}

unfoldable pub sessions_of : List Recipient → List ℕ
sessions_of [] = []
sessions_of (r ∷ rs) = r.session ∷ sessions_of rs

pub member-append : (t : ℕ) (xs ys : List ℕ) → member t (xs ++ ys) ≡ (member t xs || member t ys)
unfolding member
member-append t [] ys = refl
member-append t (x ∷ xs) ys = ground (arith, member-append t xs ys)

pub member-insert_all :
    (t : ℕ) (set xs : List ℕ) → member t (insert_all set xs) ≡ (member t set || member t xs)
unfolding member insert_all
member-insert_all t set [] = ground arith
member-insert_all t set (x ∷ xs) =
    ground (arith, member-insert_all t (add x set) xs, member-add x t set)

pub Ascending-insert_all : (set xs : List ℕ) → Ascending 0 set → Ascending 0 (insert_all set xs)
unfolding insert_all
Ascending-insert_all set [] a = a
Ascending-insert_all set (x ∷ xs) a =
    Ascending-insert_all (add x set) xs (Ascending-add 0 x set (omega arith) a)

-- Whether a session is in, or listens to, one of the channels of a target.
unfoldable pub in_channels : ChannelStore → ℕ → List ChannelTarget → Bool
in_channels channels t [] = false
in_channels channels t (ct ∷ cts) =
    (elim (lookup ct.channel_id channels) [ none ↦ false | some ch ↦ member t (audience ch) ])
    || in_channels channels t cts

pub member-insert_channels :
    (channels : ChannelStore) (t : ℕ) (set : List ℕ) (cts : List ChannelTarget)
    → member t (insert_channels channels set cts) ≡ (member t set || in_channels channels t cts)
unfolding insert_channels in_channels
member-insert_channels channels t set [] = ground arith
member-insert_channels channels t set (ct ∷ cts) =
    elim (Option-cases (lookup ct.channel_id channels)) [
      | inl missing ↦
          rw (missing, insert_channels, in_channels) (member-insert_channels channels t set cts)
      | inr (ch, here) ↦
          rw (here, insert_channels, in_channels)
            (ground (
              arith,
              member-insert_channels channels t (insert_all set (audience ch)) cts,
              member-insert_all t set (audience ch),
            ))
    ]

pub Ascending-insert_channels :
    (channels : ChannelStore) (set : List ℕ) (cts : List ChannelTarget)
    → Ascending 0 set
    → Ascending 0 (insert_channels channels set cts)
unfolding insert_channels
Ascending-insert_channels channels set [] a = a
Ascending-insert_channels channels set (ct ∷ cts) a =
    elim (Option-cases (lookup ct.channel_id channels)) [
      | inl missing ↦ rw (missing, insert_channels) (Ascending-insert_channels channels set cts a)
      | inr (ch, here) ↦
          rw (here, insert_channels)
            (Ascending-insert_channels channels (insert_all set (audience ch)) cts
              (Ascending-insert_all set (audience ch) a))
    ]

-- Order that allows for repetitions.
unfoldable pub Rising : ℕ → List ℕ → Type 0
Rising low [] = Unit
Rising low (x ∷ xs) = (low ≤ x) × Rising x xs

Rising-insert_sorted :
    (low : ℕ) (x : Recipient) (ys : List Recipient)
    → low ≤ x.session
    → Rising low (sessions_of ys)
    → Rising low (sessions_of (insert_sorted x ys))
unfolding Rising sessions_of insert_sorted
Rising-insert_sorted low x [] h a = (h, tt)
Rising-insert_sorted low x (y ∷ ys) h (p, a) = elim (Bool-cases (ltb y.session x.session)) [
  | inl before ↦
      rw (before, insert_sorted) (p, Rising-insert_sorted y.session x ys (ground arith) a)
  | inr behind ↦ rw (behind, insert_sorted) (h, (ground arith, a))
]

Rising-sort_by_session : (xs : List Recipient) → Rising 0 (sessions_of (sort_by_session xs))
unfolding sort_by_session Rising sessions_of
Rising-sort_by_session [] = tt
Rising-sort_by_session (x ∷ xs) =
    Rising-insert_sorted 0 x (sort_by_session xs) (omega arith) (Rising-sort_by_session xs)

Ascending-dedup_behind :
    (low : ℕ) (x : Recipient) (ys : List Recipient)
    → low ≤ x.session
    → Rising x.session (sessions_of ys)
    → Ascending low (sessions_of (dedup_behind x ys))
unfolding dedup_behind Rising sessions_of Ascending
Ascending-dedup_behind low x [] h a = (h, tt)
Ascending-dedup_behind low x (y ∷ ys) h (p, a) = elim (Bool-cases (y.session == x.session)) [
  | inl same ↦
      rw (same, dedup_behind)
        (let e : x.session ≡ y.session = ground arith in Ascending-dedup_behind low x ys h (rw e a))
  | inr other ↦
      rw (other, dedup_behind) (h, Ascending-dedup_behind (x.session + 1) y ys (ground arith) a)
]

pub Ascending-dedup : (xs : List Recipient) → Ascending 0 (sessions_of (dedup xs))
unfolding dedup dedup_by_session Rising sessions_of Ascending
Ascending-dedup xs = go (sort_by_session xs) (Rising-sort_by_session xs)
  where
    go :
        (ys : List Recipient)
        → Rising 0 (sessions_of ys)
        → Ascending 0 (sessions_of (dedup_by_session ys))
    go [] a = tt
    go (y ∷ ys) (p, a) = Ascending-dedup_behind 0 y ys p a

member-insert_sorted :
    (t : ℕ) (x : Recipient) (ys : List Recipient)
    → member t (sessions_of (insert_sorted x ys)) ≡ ((x.session == t) || member t (sessions_of ys))
unfolding sessions_of insert_sorted member
member-insert_sorted t x [] = refl
member-insert_sorted t x (y ∷ ys) = ground (arith, member-insert_sorted t x ys)

member-sort_by_session :
    (t : ℕ) (xs : List Recipient)
    → member t (sessions_of (sort_by_session xs)) ≡ member t (sessions_of xs)
unfolding sort_by_session sessions_of member
member-sort_by_session t [] = refl
member-sort_by_session t (x ∷ xs) =
    member-insert_sorted t x (sort_by_session xs)
    ∙ ap (λ b. (x.session == t) || b) (member-sort_by_session t xs)

member-dedup_behind :
    (t : ℕ) (x : Recipient) (ys : List Recipient)
    → member t (sessions_of (dedup_behind x ys)) ≡ ((x.session == t) || member t (sessions_of ys))
unfolding sessions_of dedup_behind member
member-dedup_behind t x [] = refl
member-dedup_behind t x (y ∷ ys) =
    ground (arith, member-dedup_behind t x ys, member-dedup_behind t y ys)

pub member-dedup :
    (t : ℕ) (xs : List Recipient) → member t (sessions_of (dedup xs)) ≡ member t (sessions_of xs)
unfolding dedup dedup_by_session sessions_of member
member-dedup t xs = go (sort_by_session xs) ∙ member-sort_by_session t xs
  where
    go :
        (ys : List Recipient)
        → member t (sessions_of (dedup_by_session ys)) ≡ member t (sessions_of ys)
    go [] = refl
    go (y ∷ ys) = member-dedup_behind t y ys

module _ (P : Recipient → Type 0) where
  All-insert_sorted :
      (x : Recipient) (ys : List Recipient) → P x → All P ys → All P (insert_sorted x ys)
  unfolding insert_sorted
  All-insert_sorted x [] p q = (p, tt)
  All-insert_sorted x (y ∷ ys) p q = elim (Bool-cases (ltb y.session x.session)) [
    | inl before ↦ rw (before, insert_sorted) (q.0, All-insert_sorted x ys p q.1)
    | inr behind ↦ rw (behind, insert_sorted) (p, q)
  ]

  All-sort_by_session : (xs : List Recipient) → All P xs → All P (sort_by_session xs)
  unfolding sort_by_session
  All-sort_by_session [] q = tt
  All-sort_by_session (x ∷ xs) q =
      All-insert_sorted x (sort_by_session xs) q.0 (All-sort_by_session xs q.1)

  All-dedup_behind :
      (x : Recipient) (ys : List Recipient) → P x → All P ys → All P (dedup_behind x ys)
  unfolding dedup_behind
  All-dedup_behind x [] p q = (p, tt)
  All-dedup_behind x (y ∷ ys) p q = elim (Bool-cases (y.session == x.session)) [
    | inl same ↦ rw (same, dedup_behind) (All-dedup_behind x ys p q.1)
    | inr other ↦ rw (other, dedup_behind) (p, All-dedup_behind y ys q.0 q.1)
  ]

  pub All-dedup : (xs : List Recipient) → All P xs → All P (dedup xs)
  unfolding dedup dedup_by_session
  All-dedup xs q = go (sort_by_session xs) (All-sort_by_session xs q)
    where
      go : (ys : List Recipient) → All P ys → All P (dedup_by_session ys)
      go [] p = tt
      go (y ∷ ys) p = All-dedup_behind y ys p.0 p.1
