-- ===== src/Voice/Router/Permission.antt =====
-- Nobody is sent a packet without the right to it.
use baston.Prelude.{
  ℕ, ◌≡◌, ◌≢◌, refl, sym, ◌∙◌, arith, Bool, true, false, Option, some, List, [], inl, inr,
  Bool-cases, Option-cases,
}
use baston.Prelude.Map.{lookup, member}
use baston.Voice.Channel.{ChannelStore}
use baston.Voice.Session.{SessionRegistry, Session, get, can_speak, can_hear}
use baston.Voice.Packet.{VoicePacket, VoiceTargetKind, normal, whisper, loopback}
use baston.Voice.Router.{
  channel_of, audience, can_deliver, deliver, proximity, whispered, route, resolve,
}
use baston.Voice.Router.Sets.{sessions_of, member-dedup}
use baston.Voice.Router.Recipients.{member-deliver}

-- A session that a packet of another one may reach: it is there and hears, and the speaker is there
-- and speaks.
pub record MayHear (sessions : SessionRegistry) (speaker t : ℕ) : Type 0 where
  pub speaking : Session
  pub hearing : Session
  pub speaker_known : get sessions speaker ≡ some speaking
  pub listener_known : get sessions t ≡ some hearing
  pub speaks : can_speak speaking ≡ true
  pub hears : can_hear hearing ≡ true
  pub other : t ≢ speaker

module _ (audible : ℕ → ℕ → Option Bool) (sessions : SessionRegistry) (speaker : ℕ)
    (packet : VoicePacket) (t : ℕ) where
  can_deliver-hears :
      (near : Bool)
      → can_deliver audible sessions speaker t near ≡ true
      → (s : Session) × (get sessions t ≡ some s) × (can_hear s ≡ true)
  unfolding can_deliver
  can_deliver-hears near h = elim (Option-cases (get sessions t)) [
    | inl unknown ↦ absurd (ground (arith, unknown, h))
    | inr (s, known) ↦ elim (Bool-cases (can_hear s)) [
      | inl hears ↦ (s, known, hears)
      | inr deaf ↦ absurd (ground (arith, known, deaf, h))
    ]
  ]

  module _ (s : Session) (known : get sessions speaker ≡ some s) (speaks : can_speak s ≡ true) where
    deliver-MayHear :
        (near : Bool) (xs : List ℕ)
        → member t (sessions_of (deliver audible sessions speaker packet near xs)) ≡ true
        → MayHear sessions speaker t
    deliver-MayHear near xs h =
        let open_to =
          can_deliver-hears near
            (ground (arith, h, member-deliver audible sessions speaker packet near t xs)) in
        record {
          speaking = s;
          hearing = open_to.0;
          speaker_known = known;
          listener_known = open_to.1;
          speaks = speaks;
          hears = open_to.2;
          other = λ e. ground (arith, h, member-deliver audible sessions speaker packet near t xs);
        }

    proximity-MayHear :
        (channels : ChannelStore)
        → member t (sessions_of (proximity audible sessions channels speaker packet)) ≡ true
        → MayHear sessions speaker t
    unfolding proximity sessions_of member
    proximity-MayHear channels h = elim (Option-cases (channel_of speaker channels)) [
      | inl nowhere ↦ absurd (ground (arith, nowhere, h))
      | inr (id, first) ↦ elim (Option-cases (lookup id channels)) [
        | inl missing ↦ absurd (ground (arith, first, missing, h, member-dedup t []))
        | inr (ch, at) ↦ deliver-MayHear true (audience ch) (
            sym (member-dedup t (deliver audible sessions speaker packet true (audience ch)))
            ∙ ground (arith, first, at, h))
      ]
    ]

    route-MayHear :
        (channels : ChannelStore) (kind : VoiceTargetKind)
        → kind ≢ loopback
        → member t (sessions_of (route audible sessions channels speaker packet kind)) ≡ true
        → MayHear sessions speaker t
    unfolding route
    route-MayHear channels normal apart h = proximity-MayHear channels h
    route-MayHear channels loopback apart h = absurd (apart refl)
    route-MayHear channels (whisper id) apart h =
        deliver-MayHear false (whispered audible sessions channels speaker id) h

  -- Whoever receives a packet that is not a loopback is a connected session other than the
  -- speaker that is not deaf, and the speaker is connected and not muted.
  pub resolve-MayHear :
      (channels : ChannelStore)
      → packet.target ≢ loopback
      → member t (sessions_of (resolve audible sessions channels speaker packet)) ≡ true
      → MayHear sessions speaker t
  unfolding resolve sessions_of member
  resolve-MayHear channels apart h = elim (Option-cases (get sessions speaker)) [
    | inl unknown ↦ absurd (ground (arith, unknown, h))
    | inr (s, known) ↦ elim (Bool-cases (can_speak s)) [
      | inl speaks ↦
          route-MayHear s known speaks channels packet.target apart
            (ground (arith, known, speaks, h))
      | inr muted ↦ absurd (ground (arith, known, muted, h))
    ]
  ]
