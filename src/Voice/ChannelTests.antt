-- ===== src/Voice/ChannelTests.antt =====
-- The theorems on the voice channels at concrete inputs.
use baston.Prelude.{ℕ, ◌≡◌, ◌↔◌, refl, true, false, some, List, [], ◌∷◌, ◌==◌, if◌then◌else◌}
use baston.Prelude.Map.{lookup, insert, member, add}
use baston.Voice.Channel.{
  Channel, ChannelStore, root_channel, new_channel, game_channel, create_game_channel, gc_temporary,
  is_empty, leave_first, leave, entry, join, set_listening, stop_listening, drop_session,
}
use baston.Voice.Channel as Store
use baston.Voice.Channel.Order.{is_in, listens}
use baston.Voice.Channel.Invariant.{IsValid, new-IsValid}
use baston.Voice.Channel.Runs.{Call, enter, listen, perform, run, run-IsValid, run-single}
use baston.Voice.Channel.Moves.{join_lem}
use baston.Voice.Channel.Disconnect.{drop_session_lem, drop_session-leftover}

-- Sessions 1 and 2 are in channel 5, session 3 listens to it.
abbrev calls : List Call
calls = enter 1 5 ∷ enter 2 5 ∷ listen 3 5 true ∷ []

abbrev rooms : ChannelStore
rooms = run Store.new calls

rooms-IsValid : IsValid rooms
rooms-IsValid = run-IsValid calls Store.new new-IsValid

run-single_example :
    ((root : Channel) × (lookup root_channel (run Store.new calls) ≡ some root)
      × (root.temporary ≡ false))
    × ((id : ℕ) (ch : Channel) → lookup id (run Store.new calls) ≡ some ch → ch.id ≡ id)
    × ((session q r : ℕ)
        → is_in (run Store.new calls) q session ≡ true
        → is_in (run Store.new calls) r session ≡ true
        → q ≡ r)
run-single_example = run-single calls

join_lem_example :
    ((k : ℕ) → ((join rooms 1 9).1 ≡ some k) ↔ (is_in rooms k 1 ≡ true))
    × ((q t : ℕ) → is_in (join rooms 1 9).0 q t ≡ (if t == 1 then 9 == q else is_in rooms q t))
join_lem_example = join_lem rooms rooms-IsValid 1 9

drop_session_lem_example :
    (is_in (drop_session rooms 3) 5 3 ≡ (if 3 == 3 then false else is_in rooms 5 3))
    × (listens (drop_session rooms 3) 5 3 ≡ (if 3 == 3 then false else listens rooms 5 3))
drop_session_lem_example = drop_session_lem rooms rooms-IsValid 3 5 3

-- Session 4 is alone in the temporary channel 8 and listens to it as well.
abbrev lone_calls : List Call
lone_calls = enter 4 8 ∷ listen 4 8 true ∷ []

abbrev lone : ChannelStore
lone = run Store.new lone_calls

abbrev lone_channel : Channel
lone_channel = record {
  id = 8;
  name = game_channel 8;
  parent = root_channel;
  temporary = true;
  members = 4 ∷ [];
  listeners = 4 ∷ [];
}

lone-lookup : lookup 8 lone ≡ some lone_channel
unfolding run perform lookup join leave leave_first member entry insert add set_listening
    gc_temporary Store.new new_channel
lone-lookup = refl

drop_session-leftover_example :
    lookup 8 (drop_session lone 4) ≡ some (record lone_channel { members = []; listeners = [] })
drop_session-leftover_example =
    drop_session-leftover lone (run-IsValid lone_calls Store.new new-IsValid) 4 8 lone_channel
      lone-lookup refl refl
