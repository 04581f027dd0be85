-- ===== src/Voice/Router/Positions.antt =====
-- Who gets the position of the speaker.
use baston.Prelude.{
  ℕ, ◌≡◌, refl, sym, ap, ◌∙◌, arith, Bool, true, false, Option, some, List, [], ◌∷◌, ◌==◌, All, inl,
  inr, Bool-cases, Option-cases,
}
use baston.Prelude.Map.{lookup}
use baston.Voice.Channel.{ChannelStore}
use baston.Voice.Session.{
  SessionRegistry, Session, get, can_speak, contexts_match, same_bytes, same_context,
}
use baston.Voice.Packet.{VoicePacket, VoiceTargetKind, normal, whisper, loopback, has_position}
use baston.Voice.Router.{
  Recipient, channel_of, audience, can_deliver, recipient, deliver, proximity, whispered, route,
  resolve,
}
use baston.Voice.Router.Sets.{All-dedup}

same_bytes-eq : (xs ys : List ℕ) → same_bytes xs ys ≡ true → xs ≡ ys
unfolding same_bytes
same_bytes-eq [] [] h = refl
same_bytes-eq [] (y ∷ ys) h = cc
same_bytes-eq (x ∷ xs) [] h = cc
same_bytes-eq (x ∷ xs) (y ∷ ys) h = ground (arith, same_bytes-eq xs ys, h)

-- Two sessions of one positional context.
pub record ShareContext (sessions : SessionRegistry) (a b : ℕ) : Type 0 where
  pub context : List ℕ
  pub first : Session
  pub second : Session
  pub first_known : get sessions a ≡ some first
  pub second_known : get sessions b ≡ some second
  pub first_context : first.context ≡ some context
  pub second_context : second.context ≡ some context

contexts_match-ShareContext :
    (sessions : SessionRegistry) (a b : ℕ)
    → contexts_match sessions a b ≡ true
    → ShareContext sessions a b
unfolding contexts_match same_context
contexts_match-ShareContext sessions a b h = elim (Option-cases (get sessions a)) [
  | inl unknown ↦ absurd (ground (arith, unknown, h))
  | inr (sa, is_a) ↦ elim (Option-cases (get sessions b)) [
    | inl unknown ↦ absurd (ground (arith, is_a, unknown, h))
    | inr (sb, is_b) ↦ elim (Option-cases sa.context) [
      | inl bare ↦ absurd (ground (arith, is_a, is_b, bare, h))
      | inr (ca, of_a) ↦ elim (Option-cases sb.context) [
        | inl bare ↦ absurd (ground (arith, is_a, is_b, of_a, bare, h))
        | inr (cb, of_b) ↦
            let same : ca ≡ cb = same_bytes-eq ca cb (ground (arith, is_a, is_b, of_a, of_b, h)) in
            record {
              context = ca;
              first = sa;
              second = sb;
              first_known = is_a;
              second_known = is_b;
              first_context = of_a;
              second_context = of_b ∙ ap some (sym same);
            }
      ]
    ]
  ]
]

module _ (audible : ℕ → ℕ → Option Bool) (sessions : SessionRegistry) (speaker : ℕ)
    (packet : VoicePacket) where
  Justified : Recipient → Type 0
  Justified r =
      r.with_position ≡ true
      → (has_position packet ≡ true) × ShareContext sessions speaker r.session

  recipient-Justified :
      (listener : ℕ) → Justified (recipient audible sessions speaker listener packet)
  unfolding recipient Justified
  recipient-Justified listener h =
      (ground (arith, h), contexts_match-ShareContext sessions speaker listener (ground (arith, h)))

  deliver-Justified :
      (near : Bool) (xs : List ℕ) → All Justified (deliver audible sessions speaker packet near xs)
  unfolding deliver
  deliver-Justified near [] = tt
  deliver-Justified near (x ∷ xs) = elim (Bool-cases (x == speaker)) [
    | inl own ↦ rw (own, deliver) (deliver-Justified near xs)
    | inr other ↦ elim (Bool-cases (can_deliver audible sessions speaker x near)) [
      | inl passes ↦ rw (other, passes, deliver) (recipient-Justified x, deliver-Justified near xs)
      | inr barred ↦ rw (other, barred, deliver) (deliver-Justified near xs)
    ]
  ]

  module _ (channels : ChannelStore) where
    proximity-Justified : All Justified (proximity audible sessions channels speaker packet)
    unfolding proximity
    proximity-Justified = elim (Option-cases (channel_of speaker channels)) [
      | inl nowhere ↦ rw (nowhere, proximity) tt
      | inr (id, first) ↦ elim (Option-cases (lookup id channels)) [
        | inl missing ↦ rw (first, missing, proximity) (All-dedup Justified [] tt)
        | inr (ch, at) ↦
            rw (first, at, proximity)
              (All-dedup Justified (deliver audible sessions speaker packet true (audience ch))
                (deliver-Justified true (audience ch)))
      ]
    ]

    route-Justified :
        (kind : VoiceTargetKind)
        → All Justified (route audible sessions channels speaker packet kind)
    unfolding route Justified
    route-Justified normal = proximity-Justified
    route-Justified loopback = ((λ h. absurd (ground (arith, h))), tt)
    route-Justified (whisper id) =
        deliver-Justified false (whispered audible sessions channels speaker id)

    -- Whoever is sent the speaker's position gets a packet that carries one, and is a session with
    -- the same positional context as the speaker's.
    pub resolve-positions :
        All
          (λ r.
            r.with_position ≡ true
            → (has_position packet ≡ true) × ShareContext sessions speaker r.session)
          (resolve audible sessions channels speaker packet)
    unfolding resolve Justified
    resolve-positions = elim (Option-cases (get sessions speaker)) [
      | inl unknown ↦ rw (unknown, resolve) tt
      | inr (s, known) ↦ elim (Bool-cases (can_speak s)) [
        | inl speaks ↦ rw (known, speaks, resolve) (route-Justified packet.target)
        | inr muted ↦ rw (known, muted, resolve) tt
      ]
    ]
