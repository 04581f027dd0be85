-- ===== src/Voice/Router.antt =====
-- Who hears a voice packet, crates/baston-voice/src/router.rs. The area-of-interest oracle, a trait
-- object of the source, is the parameter `audible`.
pub mod Sets
pub mod Recipients
pub mod Permission
pub mod Positions
use baston.Prelude.Map.{lookup, member, add}
use baston.Prelude.{
  ℕ, Bool, true, false, ◌&&◌, Option, none, some, List, [], ◌∷◌, ◌++◌, ltb, ◌==◌, if◌then◌else◌,
}
use baston.Voice.Channel.{Channel, ChannelStore}
use baston.Voice.Session.{
  SessionRegistry, Session, Target, ChannelTarget, get, get_target, can_speak, can_hear,
  contexts_match,
}
use baston.Voice.Packet.{VoicePacket, VoiceTargetKind, normal, whisper, loopback, has_position}

pub record Recipient : Type 0 where
  pub session : ℕ
  pub with_position : Bool

-- `NoCulling`
unfoldable pub no_culling : ℕ → ℕ → Option Bool
no_culling _ _ = none

-- The first channel that the speaker is in, by its own id.
unfoldable pub channel_of : ℕ → ChannelStore → Option ℕ
channel_of speaker [] = none
channel_of speaker ((k, ch) ∷ store) =
    if member speaker ch.members then some ch.id else channel_of speaker store

-- `ch.members().chain(ch.listeners())`
unfoldable pub audience : Channel → List ℕ
audience ch = ch.members ++ ch.listeners

-- `set.insert` for each.
unfoldable pub insert_all : List ℕ → List ℕ → List ℕ
insert_all set [] = set
insert_all set (s ∷ ss) = insert_all (add s set) ss

unfoldable pub insert_channels : ChannelStore → List ℕ → List ChannelTarget → List ℕ
insert_channels channels set [] = set
insert_channels channels set (ct ∷ cts) = elim (lookup ct.channel_id channels) [
  | none ↦ insert_channels channels set cts
  | some ch ↦ insert_channels channels (insert_all set (audience ch)) cts
]

-- A stable sort by session, one recipient at a time.
unfoldable pub insert_sorted : Recipient → List Recipient → List Recipient
insert_sorted x [] = x ∷ []
insert_sorted x (y ∷ ys) = if ltb y.session x.session then y ∷ insert_sorted x ys else x ∷ y ∷ ys

unfoldable pub sort_by_session : List Recipient → List Recipient
sort_by_session [] = []
sort_by_session (x ∷ xs) = insert_sorted x (sort_by_session xs)

-- `dedup_by_key`: of adjacent recipients with one session, the first stays.
unfoldable pub dedup_behind : Recipient → List Recipient → List Recipient
dedup_behind x [] = x ∷ []
dedup_behind x (y ∷ ys) =
    if y.session == x.session then dedup_behind x ys else x ∷ dedup_behind y ys

unfoldable pub dedup_by_session : List Recipient → List Recipient
dedup_by_session [] = []
dedup_by_session (x ∷ xs) = dedup_behind x xs

unfoldable pub dedup : List Recipient → List Recipient
dedup v = dedup_by_session (sort_by_session v)

module _ (audible : ℕ → ℕ → Option Bool) (sessions : SessionRegistry) where
  unfoldable pub can_deliver : ℕ → ℕ → Bool → Bool
  can_deliver speaker listener apply_aoi = elim (get sessions listener) [
    | none ↦ false
    | some s ↦
        if can_hear s
        then (if apply_aoi
            then elim (audible speaker listener) [ none ↦ true | some verdict ↦ verdict ]
            else true)
        else false
  ]

  unfoldable pub recipient : ℕ → ℕ → VoicePacket → Recipient
  recipient speaker listener packet = record {
    session = listener;
    with_position = has_position packet && contexts_match sessions speaker listener;
  }

  -- The loops over the candidates.
  unfoldable pub deliver : ℕ → VoicePacket → Bool → List ℕ → List Recipient
  deliver speaker packet apply_aoi [] = []
  deliver speaker packet apply_aoi (listener ∷ rest) =
      let out = deliver speaker packet apply_aoi rest in
      if listener == speaker
      then out
      else if can_deliver speaker listener apply_aoi
      then recipient speaker listener packet ∷ out
      else out

  module _ (channels : ChannelStore) where
    -- The branch for `Normal`.
    unfoldable pub proximity : ℕ → VoicePacket → List Recipient
    proximity speaker packet = elim (channel_of speaker channels) [
      | none ↦ []
      | some channel_id ↦ elim (lookup channel_id channels) [
        | none ↦ dedup []
        | some ch ↦ dedup (deliver speaker packet true (audience ch))
      ]
    ]

    -- The set that a whisper to target `id` names.
    unfoldable pub whispered : ℕ → ℕ → List ℕ
    whispered speaker id = elim (get sessions speaker) [
      | none ↦ []
      | some s ↦ elim (get_target s.targets id) [
        | none ↦ []
        | some target ↦ insert_channels channels (insert_all [] target.sessions) target.channels
      ]
    ]

    unfoldable pub route : ℕ → VoicePacket → VoiceTargetKind → List Recipient
    route speaker packet loopback = record { session = speaker; with_position = false } ∷ []
    route speaker packet normal = proximity speaker packet
    route speaker packet (whisper id) = deliver speaker packet false (whispered speaker id)

    unfoldable pub resolve : ℕ → VoicePacket → List Recipient
    resolve speaker packet = elim (get sessions speaker) [
      | none ↦ []
      | some s ↦ if can_speak s then route speaker packet packet.target else []
    ]
