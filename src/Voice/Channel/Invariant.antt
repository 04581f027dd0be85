-- ===== src/Voice/Channel/Invariant.antt =====
-- What holds of the channels through every operation: the channels stand under their ids, the root
-- is permanent, and a session is in one channel at most.
use baston.Prelude.Map.Ascending.{Ascending, keys, keys-insert, Ascending-add}
use baston.Prelude.Map.{lookup, insert, member, lookup-insert, member-discard}
use baston.Prelude.{
  ℕ, ◌==◌, ◌≡◌, refl, ap, sym, ◌∙◌, arith, true, false, some, if◌then◌else◌, inl, inr, Bool-cases,
  Option-cases,
}
use baston.Voice.Channel.{
  Channel, ChannelStore, root_channel, new, new_channel, leave_first, leave, root, gc_temporary,
}
use baston.Voice.Channel.Order.{
  IsLeft, leave_first-IsLeft, gc_temporary-IsCollected, is_in, without, is_in-gc_temporary,
  keys-gc_temporary, nowhere, from, kept, gone,
}

pub record IsValid (store : ChannelStore) : Type 0 where
  pub ordered : Ascending 0 (keys store)
  pub named : (q : ℕ) (ch : Channel) → lookup q store ≡ some ch → ch.id ≡ q
  pub rooted : (ch : Channel) × (lookup root_channel store ≡ some ch) × (ch.temporary ≡ false)
  pub single :
      (session q r : ℕ) → is_in store q session ≡ true → is_in store r session ≡ true → q ≡ r

pub new-IsValid : IsValid new
unfolding new new_channel insert lookup is_in Ascending keys member
new-IsValid = record {
  ordered = (omega arith, tt);
  named = λ q ch h. elim (Bool-cases (0 == q)) [
    | inl same ↦
        let is : new_channel root_channel root false ≡ ch = ground arith in
        ap (λ c. c.id) (sym is) ∙ ground arith
    | inr other ↦ absurd (ground arith)
  ];
  rooted = (new_channel root_channel root false, refl, refl);
  single = λ s q r h k. ground arith;
}

gc_temporary-IsValid :
    (store : ChannelStore) (id : ℕ) → IsValid store → IsValid (gc_temporary store id)
gc_temporary-IsValid store id v = record {
  ordered = keys-gc_temporary 0 store id v.ordered;
  named = λ q ch h. elim (gc_temporary-IsCollected store id q) [
    | kept e ↦ v.named q ch (sym e ∙ h)
    | gone c found t m l r e ↦ cc
  ];
  rooted = elim (gc_temporary-IsCollected store id root_channel) [
    | kept e ↦ (v.rooted.0, e ∙ v.rooted.1, v.rooted.2)
    | gone c found t m l r e ↦ absurd (r refl)
  ];
  single = λ s q r h i.
      v.single s q r (sym (is_in-gc_temporary store id q s) ∙ h)
        (sym (is_in-gc_temporary store id r s) ∙ i);
}

module _ (store : ChannelStore) (v : IsValid store) (session : ℕ) where
  left : IsLeft session store (leave_first session store)
  left = leave_first-IsLeft 0 session store v.ordered

  elsewhere :
      (k q : ℕ) → is_in store k session ≡ true → (k == q) ≡ false → is_in store q session ≡ false
  elsewhere k q h away = elim (Bool-cases (is_in store q session)) [
    | inl both ↦ absurd (ground (arith, v.single session k q h both))
    | inr apart ↦ apart
  ]

  is_in-leave_first :
      (q t : ℕ)
      → is_in (leave_first session store).0 q t ≡ (if t == session then false else is_in store q t)
  unfolding is_in
  is_in-leave_first q t = elim left [
    | nowhere e outside ↦
        rw (e, is_in)
          (elim (Option-cases (lookup q store)) [
            | inl missing ↦ rw missing (ground arith)
            | inr (c, here) ↦ rw here (ground (arith, outside q c here))
          ])
    | from k ch found inside named others same ↦ elim (Bool-cases (k == q)) [
      | inl here ↦
          let at : lookup q store ≡ some ch = ap (λ i. lookup i store) (ground arith) ∙ found in
          rw (others q, here, at, is_in) (member-discard session t ch.members ∙ ground arith)
      | inr away ↦
          rw (others q, away, is_in)
            (elim (Bool-cases (t == session)) [
              | inl itself ↦ rw itself (
                  ap (λ i. is_in store q i) (ground arith)
                  ∙ elsewhere k q (rw (found, is_in) inside) away)
              | inr another ↦ rw another refl
            ])
    ]
  ]

  leave_first-IsValid : IsValid (leave_first session store).0
  leave_first-IsValid = elim left [
    | nowhere e outside ↦ rw e v
    | from k ch found inside named others same ↦ record {
      ordered = rw same v.ordered;
      named = λ q c h. elim (Bool-cases (k == q)) [
        | inl here ↦
            let is : without session ch ≡ c = ground (arith, others q, h) in
            ap (λ d. d.id) (sym is) ∙ (v.named k ch found ∙ ground arith)
        | inr away ↦ v.named q c (ground (arith, others q, h))
      ];
      rooted = elim (Bool-cases (k == root_channel)) [
        | inl here ↦
            let is : ch ≡ v.rooted.0 = ground (arith, found, v.rooted.1) in
            (
              without session ch,
              rw (others root_channel, here) refl,
              ap (λ d. d.temporary) is ∙ v.rooted.2,
            )
        | inr away ↦ (v.rooted.0, rw (others root_channel, away) v.rooted.1, v.rooted.2)
      ];
      single = λ s q r h i.
          v.single s q r (ground (arith, is_in-leave_first q s, h))
            (ground (arith, is_in-leave_first r s, i));
    }
  ]

  -- `leave` takes the session out of its channel, and no other session out of any.
  pub is_in-leave :
      (q t : ℕ)
      → is_in (leave store session).0 q t ≡ (if t == session then false else is_in store q t)
  unfolding leave
  is_in-leave q t = elim (Option-cases (leave_first session store).1) [
    | inl none_left ↦ rw (none_left, leave) (is_in-leave_first q t)
    | inr (id, some_left) ↦
        rw (some_left, leave)
          (is_in-gc_temporary (leave_first session store).0 id q t ∙ is_in-leave_first q t)
  ]

  pub leave-IsValid : IsValid (leave store session).0
  unfolding leave
  leave-IsValid = elim (Option-cases (leave_first session store).1) [
    | inl none_left ↦ rw (none_left, leave) leave_first-IsValid
    | inr (id, some_left) ↦
        rw (some_left, leave)
          (gc_temporary-IsValid (leave_first session store).0 id leave_first-IsValid)
  ]

pub is_in-insert :
    (store : ChannelStore) (id : ℕ) (ch : Channel) (q s : ℕ)
    → is_in (insert id ch store) q s ≡ (if id == q then member s ch.members else is_in store q s)
unfolding is_in
is_in-insert store id ch q s = elim (Bool-cases (id == q)) [
  | inl same ↦ rw (lookup-insert id q ch store, same, is_in) refl
  | inr other ↦ rw (lookup-insert id q ch store, other, is_in) refl
]

-- A channel may be stored under its id, with the old one's kind, and with no session in it that
-- is in another channel.
pub insert-IsValid :
    (store : ChannelStore) (id : ℕ) (ch : Channel)
    → IsValid store
    → ch.id ≡ id
    → ((old : Channel) → lookup id store ≡ some old → ch.temporary ≡ old.temporary)
    → ((s q : ℕ) → member s ch.members ≡ true → is_in store q s ≡ true → id ≡ q)
    → IsValid (insert id ch store)
insert-IsValid store id ch v own kind alone = record {
  ordered = rw keys-insert (Ascending-add 0 id (keys store) (omega arith) v.ordered);
  named = λ q c h. elim (Bool-cases (id == q)) [
    | inl here ↦
        let is : ch ≡ c = ground (arith, lookup-insert id q ch store, h) in
        ap (λ d. d.id) (sym is) ∙ (own ∙ ground arith)
    | inr away ↦ v.named q c (ground (arith, lookup-insert id q ch store, h))
  ];
  rooted = elim (Bool-cases (id == root_channel)) [
    | inl here ↦ (
      ch,
      rw (lookup-insert id root_channel ch store, here) refl,
      kind v.rooted.0 (ap (λ i. lookup i store) (ground arith) ∙ v.rooted.1) ∙ v.rooted.2,
    )
    | inr away ↦
        (v.rooted.0, rw (lookup-insert id root_channel ch store, away) v.rooted.1, v.rooted.2)
  ];
  single = λ s q r h i. ground (
    arith,
    is_in-insert store id ch q s,
    is_in-insert store id ch r s,
    alone s q,
    alone s r,
    v.single s q r,
    h,
    i,
  );
}
