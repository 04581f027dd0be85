-- ===== src/Voice/Channel/Moves.antt =====
-- What the moves of a session do to who is in which channel and who listens to it.
use baston.Prelude.Map.{lookup, member, add, member-add}
use baston.Prelude.{
  ℕ, ◌==◌, ◌≡◌, ◌↔◌, refl, ap, sym, ◌∙◌, arith, true, false, some, if◌then◌else◌, inl, inr,
  Option-cases,
}
use baston.Voice.Channel.{Channel, ChannelStore, leave, entry, join}
use baston.Voice.Channel.Order.{is_in, leave_first-IsLeft, nowhere, from}
use baston.Voice.Channel.Invariant.{IsValid, is_in-leave, is_in-insert}
use baston.Voice.Channel.Runs.{member-is_in, member-entry}

module _ (store : ChannelStore) (v : IsValid store) (session : ℕ) where
  not_in :
      (k : ℕ)
      → ((ch : Channel) → lookup k store ≡ some ch → member session ch.members ≡ false)
      → is_in store k session ≡ false
  unfolding is_in
  not_in k outside = elim (Option-cases (lookup k store)) [
    | inl missing ↦ rw (missing, is_in) refl
    | inr (ch, found) ↦ rw (found, is_in) (outside ch found)
  ]

  here :
      (k j : ℕ) (ch : Channel)
      → lookup j store ≡ some ch
      → member session ch.members ≡ true
      → j ≡ k
      → is_in store k session ≡ true
  here k j ch found inside e =
      ap (λ i. is_in store i session) (sym e) ∙ (member-is_in store j session ch found ∙ inside)

  leave-channel : (k : ℕ) → ((leave store session).1 ≡ some k) ↔ (is_in store k session ≡ true)
  unfolding leave
  leave-channel k = elim (leave_first-IsLeft 0 session store v.ordered) [
    | nowhere e outside ↦
        rw (e, leave) ((λ h. cc), (λ h. absurd (ground (arith, not_in k (outside k), h))))
    | from j ch found inside named others same ↦
        rw (named, leave)
          (
            (λ h. here k j ch found inside (ground (arith, v.named j ch found, h))),
            (λ h. ap some (
                v.named j ch found
                ∙ v.single session j k (member-is_in store j session ch found ∙ inside) h)),
          )
  ]

  -- In a valid store, `leave` names the channel that the session was in, if it was in one, and
  -- takes it out of there; every other session stays where it is.
  leave_lem :
      ((k : ℕ) → ((leave store session).1 ≡ some k) ↔ (is_in store k session ≡ true))
      × ((q t : ℕ)
          → is_in (leave store session).0 q t ≡ (if t == session then false else is_in store q t))
  leave_lem = (leave-channel, is_in-leave store v session)

  -- In a valid store, `join` names the channel that the session was in, if it was in one, and
  -- moves it to the given one, where it is and nowhere else; every other session stays where it is.
  pub join_lem :
      (id : ℕ)
      → ((k : ℕ) → ((join store session id).1 ≡ some k) ↔ (is_in store k session ≡ true))
        × ((q t : ℕ)
            → is_in (join store session id).0 q t
              ≡ (if t == session then id == q else is_in store q t))
  unfolding join
  join_lem id = (
    leave-channel,
    λ q t.
        let after = (leave store session).0 in
        let ch = entry after id in
        is_in-insert after id (record ch { members = add session ch.members }) q t
        ∙ ground (
          arith,
          member-add session t ch.members,
          member-entry after id t,
          is_in-leave store v session q t,
          is_in-leave store v session id t,
        ),
  )
