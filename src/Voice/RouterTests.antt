-- ===== src/Voice/RouterTests.antt =====
-- The theorems on voice routing at concrete inputs.
use baston.Prelude.{ℕ, ◌≡◌, ◌≢◌, refl, true, false, ◌&&◌, ◌||◌, not, some, List, [], ◌∷◌, ◌==◌, All}
use baston.Prelude.Map.{lookup, insert, member, add}
use baston.Prelude.Map.Ascending.{Ascending}
use baston.Voice.Channel.{
  Channel, ChannelStore, root_channel, new_channel, gc_temporary, is_empty, leave_first, leave,
  entry, join, set_listening,
}
use baston.Voice.Channel as Store
use baston.Voice.Channel.Order.{is_in, listens}
use baston.Voice.Channel.Invariant.{new-IsValid}
use baston.Voice.Channel.Runs.{Call, enter, listen, perform, run, run-IsValid}
use baston.Voice.Session.{Session, SessionRegistry, Target, get, get_target, can_speak, can_hear}
use baston.Voice.Packet.{
  VoicePacket, VoiceTargetKind, normal, whisper, loopback, opus, has_position,
}
use baston.Voice.Router.{
  no_culling, can_deliver, audience, deliver, recipient, channel_of, proximity, route, resolve,
  dedup, dedup_by_session, dedup_behind, sort_by_session, insert_sorted,
}
use baston.Voice.Router.Sets.{sessions_of, in_channels}
use baston.Voice.Router.Recipients.{
  hearing, not_culled, resolve-proximity, resolve-whisper, resolve-Ascending,
}
use baston.Voice.Router.Positions.{ShareContext, resolve-positions}
use baston.Voice.Router.Permission.{MayHear, resolve-MayHear}

abbrev calls : List Call
calls = enter 1 5 ∷ enter 2 5 ∷ listen 3 5 true ∷ []

abbrev rooms : ChannelStore
rooms = run Store.new calls

abbrev team : Target
team = record {
  sessions = 3 ∷ 2 ∷ [];
  channels = record { channel_id = 5; links = false; children = false } ∷ [];
}

abbrev session : ℕ → Session
session id = record {
  id = id;
  name = [];
  mute = false;
  self_deaf = false;
  deaf = false;
  context = some (7 ∷ []);
  targets = (4, team) ∷ [];
}

abbrev sessions : SessionRegistry
sessions = (1, session 1) ∷ (2, session 2) ∷ (3, session 3) ∷ []

abbrev packet : VoiceTargetKind → VoicePacket
packet target = record {
  codec = opus;
  target = target;
  payload = [];
  audio_end = 0;
  position = some (1, 2, 3);
}

speaker_known : get sessions 1 ≡ some (session 1)
unfolding get lookup
speaker_known = refl

speaker_speaks : can_speak (session 1) ≡ true
unfolding can_speak
speaker_speaks = refl

speaker_inside : is_in rooms 5 1 ≡ true
unfolding is_in run perform lookup join leave leave_first member entry insert add set_listening
    gc_temporary Store.new new_channel
speaker_inside = refl

team_known : get_target (session 1).targets 4 ≡ some team
unfolding get_target lookup
team_known = refl

resolve-proximity_example :
    member 2 (sessions_of (resolve no_culling sessions rooms 1 (packet normal))) ≡ (
      (is_in rooms 5 2 || listens rooms 5 2)
      && (not (2 == 1) && (hearing (get sessions 2) && not_culled (no_culling 1 2))))
resolve-proximity_example =
    resolve-proximity no_culling sessions 1 (packet normal) rooms (session 1) speaker_known
      speaker_speaks 5 (run-IsValid calls Store.new new-IsValid) refl speaker_inside 2

resolve-whisper_example :
    member 2 (sessions_of (resolve no_culling sessions rooms 1 (packet (whisper 4)))) ≡ (
      (member 2 team.sessions || in_channels rooms 2 team.channels)
      && (not (2 == 1) && hearing (get sessions 2)))
resolve-whisper_example =
    resolve-whisper no_culling sessions 1 (packet (whisper 4)) rooms (session 1) speaker_known
      speaker_speaks 4 team refl team_known 2

resolve-Ascending_example :
    Ascending 0 (sessions_of (resolve no_culling sessions rooms 1 (packet normal)))
resolve-Ascending_example = resolve-Ascending no_culling sessions 1 (packet normal) rooms

resolve-positions_example :
    All
      (λ r.
        r.with_position ≡ true
        → (has_position (packet normal) ≡ true) × ShareContext sessions 1 r.session)
      (resolve no_culling sessions rooms 1 (packet normal))
resolve-positions_example = resolve-positions no_culling sessions 1 (packet normal) rooms

-- The packet goes to both others.
reached : sessions_of (resolve no_culling sessions rooms 1 (packet normal)) ≡ 2 ∷ 3 ∷ []
unfolding run perform lookup join leave leave_first member entry insert add set_listening
    gc_temporary Store.new new_channel resolve route proximity channel_of audience deliver
    can_deliver recipient get can_speak can_hear no_culling dedup dedup_by_session dedup_behind
    sort_by_session insert_sorted sessions_of
reached = refl

two_reached : member 2 (sessions_of (resolve no_culling sessions rooms 1 (packet normal))) ≡ true
unfolding member
two_reached = rw reached refl

not_loopback : normal ≢ loopback
not_loopback h = cc

resolve-MayHear_example : MayHear sessions 1 2
resolve-MayHear_example =
    resolve-MayHear no_culling sessions 1 (packet normal) 2 rooms not_loopback two_reached
