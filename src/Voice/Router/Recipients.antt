-- ===== src/Voice/Router/Recipients.antt =====
-- Who `resolve` sends a packet to, in which order, and who gets the speaker's position.
use baston.Prelude.Map.Ascending.{Ascending, Ascending-weaken, keys, lookup-Ascending}
use baston.Prelude.Map.{lookup, member}
use baston.Prelude.{
  ℕ, ◌+◌, ◌≡◌, ◌≢◌, refl, sym, ap, ◌∙◌, arith, Bool, true, false, ◌&&◌, ◌||◌, not, Option, none,
  some, List, [], ◌∷◌, ◌==◌, inl, inr, Bool-cases, Option-cases,
}
use baston.Voice.Channel.{Channel, ChannelStore}
use baston.Voice.Channel.Order.{is_in, listens}
use baston.Voice.Channel.Invariant.{IsValid}
use baston.Voice.Session.{SessionRegistry, Session, Target, get, get_target, can_speak, can_hear}
use baston.Voice.Packet.{VoicePacket, VoiceTargetKind, normal, whisper, loopback}
use baston.Voice.Router.{
  channel_of, audience, insert_all, can_deliver, recipient, deliver, proximity, whispered, route,
  resolve,
}
use baston.Voice.Router.Sets.{
  sessions_of, member-append, member-insert_all, Ascending-insert_all, in_channels,
  member-insert_channels, Ascending-insert_channels, Ascending-dedup, member-dedup,
}

is_in-tail :
    (speaker j q : ℕ) (ch : Channel) (store : ChannelStore)
    → lookup j store ≡ none
    → member speaker ch.members ≡ false
    → is_in ((j, ch) ∷ store) q speaker ≡ is_in store q speaker
unfolding is_in lookup
is_in-tail speaker j q ch store fresh outside = elim (Bool-cases (j == q)) [
  | inr other ↦ rw (other, lookup, is_in) refl
  | inl same ↦
      let at : lookup q store ≡ none = ap (λ i. lookup i store) (ground arith) ∙ fresh in
      rw (same, at, lookup, is_in) outside
]

channel_of-is_in :
    (speaker id low : ℕ) (store : ChannelStore)
    → Ascending low (keys store)
    → ((q : ℕ) (ch : Channel) → lookup q store ≡ some ch → ch.id ≡ q)
    → ((q : ℕ) → is_in store q speaker ≡ true → q ≡ id)
    → is_in store id speaker ≡ true
    → channel_of speaker store ≡ some id
unfolding channel_of is_in lookup Ascending keys
channel_of-is_in speaker id low [] a named only here = cc
channel_of-is_in speaker id low ((j, ch) ∷ store) (p, a) named only here =
    let fresh = lookup-Ascending (j + 1) j store (omega arith) a in
    elim (Bool-cases (member speaker ch.members)) [
      | inl inside ↦
          rw (inside, channel_of)
            (ap some (named j ch (ground arith) ∙ only j (ground (arith, inside))))
      | inr outside ↦
          let tail : (q : ℕ) → is_in ((j, ch) ∷ store) q speaker ≡ is_in store q speaker =
            λ q. is_in-tail speaker j q ch store fresh outside in
          rw (outside, channel_of)
            (channel_of-is_in speaker id (j + 1) store a
              (λ q c h. named q c (ground (arith, fresh, h))) (λ q h. only q (tail q ∙ h))
              (sym (tail id) ∙ here))
    ]

-- A connected session that is neither deafened nor deaf of its own accord.
abbrev pub hearing : Option Session → Bool
hearing none = false
hearing (some s) = not (s.deaf || s.self_deaf)

-- The oracle keeps silent, or it says that the listener is in range.
abbrev pub not_culled : Option Bool → Bool
not_culled none = true
not_culled (some in_range) = in_range

module _ (audible : ℕ → ℕ → Option Bool) (sessions : SessionRegistry) (speaker : ℕ) where
  can_deliver-true :
      (t : ℕ)
      → can_deliver audible sessions speaker t true
        ≡ (hearing (get sessions t) && not_culled (audible speaker t))
  unfolding can_deliver can_hear
  can_deliver-true t = elim (Option-cases (get sessions t)) [
    | inl unknown ↦ rw (unknown, can_deliver) refl
    | inr (s, known) ↦ elim (Option-cases (audible speaker t)) [
      | inl silent ↦ rw (known, silent, can_deliver) (ground arith)
      | inr (verdict, said) ↦ rw (known, said, can_deliver) (ground arith)
    ]
  ]

  can_deliver-false :
      (t : ℕ) → can_deliver audible sessions speaker t false ≡ hearing (get sessions t)
  unfolding can_deliver can_hear
  can_deliver-false t = elim (Option-cases (get sessions t)) [
    | inl unknown ↦ rw (unknown, can_deliver) refl
    | inr (s, known) ↦ rw (known, can_deliver) (ground arith)
  ]

module _ (audible : ℕ → ℕ → Option Bool) (sessions : SessionRegistry) (speaker : ℕ)
    (packet : VoicePacket) where
  pub member-deliver :
      (near : Bool) (t : ℕ) (xs : List ℕ)
      → member t (sessions_of (deliver audible sessions speaker packet near xs))
        ≡ (member t xs && (not (t == speaker) && can_deliver audible sessions speaker t near))
  unfolding deliver sessions_of member recipient
  member-deliver near t [] = refl
  member-deliver near t (x ∷ xs) = elim (Bool-cases (x == t)) [
    | inl same ↦ let e : x ≡ t = ground arith in rw e (ground (arith, member-deliver near t xs))
    | inr other ↦ ground (arith, member-deliver near t xs)
  ]

  Ascending-deliver :
      (near : Bool) (low : ℕ) (xs : List ℕ)
      → Ascending low xs
      → Ascending low (sessions_of (deliver audible sessions speaker packet near xs))
  unfolding deliver sessions_of recipient Ascending
  Ascending-deliver near low [] a = a
  Ascending-deliver near low (x ∷ xs) (p, a) =
      let rest = Ascending-deliver near (x + 1) xs a in
      let out = sessions_of (deliver audible sessions speaker packet near xs) in
      elim (Bool-cases (x == speaker)) [
        | inl own ↦ rw (own, deliver) (Ascending-weaken low (x + 1) out (omega arith) rest)
        | inr other ↦ elim (Bool-cases (can_deliver audible sessions speaker x near)) [
          | inl passes ↦ rw (other, passes, deliver) (p, rest)
          | inr barred ↦
              rw (other, barred, deliver) (Ascending-weaken low (x + 1) out (omega arith) rest)
        ]
      ]

  module _ (channels : ChannelStore) (s : Session) (known : get sessions speaker ≡ some s)
      (speaks : can_speak s ≡ true) where
    absent : (id : ℕ) → lookup id channels ≡ none → is_in channels id speaker ≢ true
    unfolding is_in
    absent id missing here = ground (arith, missing, here)

    resolve-route :
        (kind : VoiceTargetKind)
        → packet.target ≡ kind
        → resolve audible sessions channels speaker packet
          ≡ route audible sessions channels speaker packet kind
    unfolding resolve
    resolve-route kind e = rw (known, speaks, resolve, e) refl

    -- Proximity talk of a session that may speak and is in channel `id` of a valid store reaches
    -- exactly the other members and listeners of that channel that are not deaf and that the
    -- oracle does not cull.
    pub resolve-proximity :
        (id : ℕ)
        → IsValid channels
        → packet.target ≡ normal
        → is_in channels id speaker ≡ true
        → (t : ℕ)
        → member t (sessions_of (resolve audible sessions channels speaker packet)) ≡ (
            (is_in channels id t || listens channels id t)
            && (not (t == speaker) && (hearing (get sessions t) && not_culled (audible speaker t))))
    unfolding route proximity audience is_in listens
    resolve-proximity id v e here t = elim (Option-cases (lookup id channels)) [
      | inl missing ↦ absurd (absent id missing here)
      | inr (ch, at) ↦
          rw (resolve-route normal e, route, proximity, first, at)
            (member-dedup t (deliver audible sessions speaker packet true (audience ch))
              ∙ (member-deliver true t (audience ch)
                  ∙ rw
                      (
                        can_deliver-true audible sessions speaker t,
                        member-append,
                        is_in,
                        listens,
                        at,
                      )
                      refl))
    ]
      where
        first : channel_of speaker channels ≡ some id
        first =
            channel_of-is_in speaker id 0 channels v.ordered v.named
              (λ q h. v.single speaker q id h here) here

    -- A whisper of a session that may speak, to a target that it registered, reaches exactly the
    -- sessions of the target and the members and listeners of its channels, without the speaker
    -- and those that are deaf; the oracle is not asked.
    pub resolve-whisper :
        (id : ℕ) (target : Target)
        → packet.target ≡ whisper id
        → get_target s.targets id ≡ some target
        → (t : ℕ)
        → member t (sessions_of (resolve audible sessions channels speaker packet)) ≡ (
            (member t target.sessions || in_channels channels t target.channels)
            && (not (t == speaker) && hearing (get sessions t)))
    unfolding route whispered member
    resolve-whisper id target e found t =
        rw (resolve-route (whisper id) e, route)
          (member-deliver false t (whispered audible sessions channels speaker id)
            ∙ rw
                (
                  can_deliver-false audible sessions speaker t,
                  known,
                  found,
                  whispered,
                  member-insert_channels,
                  member-insert_all,
                )
                refl)

  module _ (channels : ChannelStore) where
    Ascending-whispered : (id : ℕ) → Ascending 0 (whispered audible sessions channels speaker id)
    unfolding whispered Ascending
    Ascending-whispered id = elim (Option-cases (get sessions speaker)) [
      | inl unknown ↦ rw (unknown, whispered) tt
      | inr (s, known) ↦ elim (Option-cases (get_target s.targets id)) [
        | inl no_target ↦ rw (known, no_target, whispered) tt
        | inr (target, found) ↦
            rw (known, found, whispered)
              (Ascending-insert_channels channels (insert_all [] target.sessions) target.channels
                (Ascending-insert_all [] target.sessions tt))
      ]
    ]

    Ascending-proximity :
        Ascending 0 (sessions_of (proximity audible sessions channels speaker packet))
    unfolding proximity sessions_of Ascending
    Ascending-proximity = elim (Option-cases (channel_of speaker channels)) [
      | inl nowhere ↦ rw (nowhere, proximity) tt
      | inr (id, first) ↦ elim (Option-cases (lookup id channels)) [
        | inl missing ↦ rw (first, missing, proximity) (Ascending-dedup [])
        | inr (ch, at) ↦
            rw (first, at, proximity)
              (Ascending-dedup (deliver audible sessions speaker packet true (audience ch)))
      ]
    ]

    Ascending-route :
        (kind : VoiceTargetKind)
        → Ascending 0 (sessions_of (route audible sessions channels speaker packet kind))
    unfolding route sessions_of Ascending
    Ascending-route normal = Ascending-proximity
    Ascending-route loopback = (omega arith, tt)
    Ascending-route (whisper id) =
        Ascending-deliver false 0 (whispered audible sessions channels speaker id)
          (Ascending-whispered id)

    -- The recipients of any packet are in strictly ascending order of their sessions, so that
    -- nobody gets it twice.
    pub resolve-Ascending :
        Ascending 0 (sessions_of (resolve audible sessions channels speaker packet))
    unfolding resolve sessions_of Ascending
    resolve-Ascending = elim (Option-cases (get sessions speaker)) [
      | inl unknown ↦ rw (unknown, resolve) tt
      | inr (s, known) ↦ elim (Bool-cases (can_speak s)) [
        | inl speaks ↦ rw (known, speaks, resolve) (Ascending-route packet.target)
        | inr muted ↦ rw (known, muted, resolve) tt
      ]
    ]
