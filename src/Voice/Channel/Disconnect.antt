-- ===== src/Voice/Channel/Disconnect.antt =====
-- What the end of a session does to the channels: it leaves every list, and it can leave an empty
-- temporary channel behind.
use baston.Prelude.Map.{lookup, member, discard, member-discard}
use baston.Prelude.{
  ℕ, ◌==◌, ◌≡◌, ◌≢◌, refl, ap, sym, ◌∙◌, arith, true, false, some, [], ◌∷◌, if◌then◌else◌, inl, inr,
  Bool-cases, Option-cases,
}
use baston.Voice.Channel.{
  Channel, ChannelStore, leave_first, gc_temporary, leave, stop_listening, drop_session,
}
use baston.Voice.Channel.Order.{
  is_in, listens, without, leave_first-IsLeft, gc_temporary-IsCollected, kept, nowhere, gone, from,
}
use baston.Voice.Channel.Invariant.{IsValid, is_in-leave}
use baston.Voice.Channel.Runs.{member-is_in, is_in-stop_listening, lookup-stop_listening}

listens-gc_temporary :
    (store : ChannelStore) (id q t : ℕ) → listens (gc_temporary store id) q t ≡ listens store q t
unfolding listens member
listens-gc_temporary store id q t = elim (gc_temporary-IsCollected store id q) [
  | kept e ↦ rw (e, listens) refl
  | gone ch found temporary m l r e ↦ rw (e, found, l, listens) refl
]

listens-stop_listening :
    (s q t : ℕ) (store : ChannelStore)
    → listens (stop_listening s store) q t ≡ (if t == s then false else listens store q t)
unfolding listens
listens-stop_listening s q t store = elim (Option-cases (lookup q store)) [
  | inl missing ↦ rw (lookup-stop_listening s q store, missing, listens) (ground arith)
  | inr (ch, here) ↦
      rw (lookup-stop_listening s q store, here, listens)
        (ground (arith, member-discard s t ch.listeners))
]

discard-one : (x : ℕ) → discard x (x ∷ []) ≡ []
unfolding discard
discard-one x = ground arith

nonempty : {x : ℕ} → x ∷ [] ≢ []
nonempty h = cc

module _ (store : ChannelStore) (v : IsValid store) (session : ℕ) where
  listens-leave_first : (q t : ℕ) → listens (leave_first session store).0 q t ≡ listens store q t
  unfolding listens
  listens-leave_first q t = elim (leave_first-IsLeft 0 session store v.ordered) [
    | nowhere e outside ↦ rw (e, listens) refl
    | from k ch found inside named others same ↦ elim (Bool-cases (k == q)) [
      | inl here ↦
          let at : lookup q store ≡ some ch = ap (λ i. lookup i store) (ground arith) ∙ found in
          rw (others q, here, at, listens) refl
      | inr away ↦ rw (others q, away, listens) refl
    ]
  ]

  pub listens-leave : (q t : ℕ) → listens (leave store session).0 q t ≡ listens store q t
  unfolding leave
  listens-leave q t = elim (Option-cases (leave_first session store).1) [
    | inl none_left ↦ rw (none_left, leave) (listens-leave_first q t)
    | inr (id, some_left) ↦
        rw (some_left, leave)
          (listens-gc_temporary (leave_first session store).0 id q t ∙ listens-leave_first q t)
  ]

  -- In a valid store, a disconnected session is in no channel and listens to none afterwards;
  -- every other session stays in its channel and keeps listening where it listened.
  pub drop_session_lem :
      (q t : ℕ)
      → (is_in (drop_session store session) q t ≡ (if t == session then false else is_in store q t))
        × (listens (drop_session store session) q t
            ≡ (if t == session then false else listens store q t))
  unfolding drop_session
  drop_session_lem q t = (
    is_in-stop_listening session q t (leave store session).0 ∙ is_in-leave store v session q t,
    listens-stop_listening session q t (leave store session).0
        ∙ ap (λ b. if t == session then false else b) (listens-leave q t),
  )

  module _ (id : ℕ) (ch : Channel) (here : lookup id store ≡ some ch)
      (last : ch.members ≡ session ∷ []) (ear : ch.listeners ≡ session ∷ []) where
    is_member : member session ch.members ≡ true
    unfolding member
    is_member = rw last (ground arith)

    after_loop : lookup id (leave_first session store).0 ≡ some (without session ch)
    after_loop = elim (leave_first-IsLeft 0 session store v.ordered) [
      | nowhere e outside ↦ absurd (ground (arith, outside id ch here, is_member))
      | from k c found inside named others same ↦
          let at : k ≡ id =
            v.single session k id (member-is_in store k session c found ∙ inside)
              (member-is_in store id session ch here ∙ is_member) in
          let is : c ≡ ch = ground (arith, sym (ap (λ i. lookup i store) at) ∙ found, here) in
          others id ∙ (rw at (ground arith) ∙ ap (λ d. some (without session d)) is)
    ]

    kept_by_leave : lookup id (leave store session).0 ≡ some (without session ch)
    unfolding leave
    kept_by_leave = elim (leave_first-IsLeft 0 session store v.ordered) [
      | nowhere e outside ↦ absurd (ground (arith, outside id ch here, is_member))
      | from k c found inside named others same ↦
          rw (named, leave)
            (elim (gc_temporary-IsCollected (leave_first session store).0 c.id id) [
              | kept e ↦ e ∙ after_loop
              | gone d at t m l r e ↦
                  let is : without session ch ≡ d = ground (arith, after_loop, at) in
                  absurd (nonempty (sym ear ∙ (ap (λ x. x.listeners) is ∙ l)))
            ])
    ]

    -- When the only member of a channel of a valid store disconnects and is also its only
    -- listener, the channel stays in the store with no member and no listener, temporary or not.
    pub drop_session-leftover :
        lookup id (drop_session store session) ≡ some (record ch { members = []; listeners = [] })
    unfolding drop_session
    drop_session-leftover =
        lookup-stop_listening session id (leave store session).0
        ∙ rw (kept_by_leave, last, ear, discard-one session) refl
