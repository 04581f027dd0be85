-- ===== src/Voice/Channel.antt =====
-- The voice channels, crates/baston-voice/src/channel.rs. The store and the sets of sessions are
-- in key order, as a `BTreeMap` and a `BTreeSet` are.
pub mod Order
pub mod Invariant
pub mod Runs
pub mod Moves
pub mod Disconnect
use baston.Prelude.Map.{lookup, insert, remove, member, add, discard}
use baston.Prelude.{
  ℕ, ◌==◌, Bool, true, false, ◌&&◌, Option, none, some, List, [], ◌∷◌, ◌++◌, map, if◌then◌else◌,
}

abbrev pub root_channel : ℕ
root_channel = 0

-- The two texts that a channel is named by, `Root` and `Game Channel N`.
pub data ChannelName : Type 0 where
  root : ChannelName
  game_channel : ℕ → ChannelName

pub record Channel : Type 0 where
  pub id : ℕ
  pub name : ChannelName
  pub parent : ℕ
  pub temporary : Bool
  pub members : List ℕ
  pub listeners : List ℕ

abbrev pub ChannelStore : Type 0
ChannelStore = List (ℕ × Channel)

unfoldable pub new_channel : ℕ → ChannelName → Bool → Channel
new_channel id name temporary = record {
  id = id;
  name = name;
  parent = root_channel;
  temporary = temporary;
  members = [];
  listeners = [];
}

-- `ChannelStore::new`
unfoldable pub new : ChannelStore
unfolding new_channel
new = insert root_channel (new_channel root_channel root false) []

-- `create_game_channel`: an existing channel stays as it is.
unfoldable pub create_game_channel : ChannelStore → ℕ → ChannelStore
create_game_channel store id = elim (lookup id store) [
  | some _ ↦ store
  | none ↦ insert id (new_channel id (game_channel id) false) store
]

unfoldable pub get : ChannelStore → ℕ → Option Channel
get store id = lookup id store

unfoldable pub exists : ChannelStore → ℕ → Bool
exists store id = elim (lookup id store) [ some _ ↦ true | none ↦ false ]

unfoldable pub is_empty : List ℕ → Bool
is_empty [] = true
is_empty (_ ∷ _) = false

unfoldable pub gc_temporary : ChannelStore → ℕ → ChannelStore
gc_temporary store id = if id == root_channel then store else elim (lookup id store) [
  | none ↦ store
  | some ch ↦
      if ch.temporary && (is_empty ch.members && is_empty ch.listeners)
      then remove id store
      else store
]

-- The loop of `leave`: the first channel that the session is in loses it, and is named.
unfoldable pub leave_first : ℕ → ChannelStore → ChannelStore × Option ℕ
leave_first session [] = ([], none)
leave_first session ((k, ch) ∷ store) =
    let rest = leave_first session store in
    if member session ch.members
    then ((k, record ch { members = discard session ch.members }) ∷ store, some ch.id)
    else ((k, ch) ∷ rest.0, rest.1)

unfoldable pub leave : ChannelStore → ℕ → ChannelStore × Option ℕ
leave store session =
    let left = leave_first session store in
    elim left.1 [ none ↦ (left.0, none) | some id ↦ (gc_temporary left.0 id, some id) ]

-- `entry(channel_id).or_insert_with(…)`
unfoldable pub entry : ChannelStore → ℕ → Channel
entry store id = elim (lookup id store) [
  | some ch ↦ ch
  | none ↦ new_channel id (game_channel id) true
]

unfoldable pub join : ChannelStore → ℕ → ℕ → ChannelStore × Option ℕ
join store session channel_id =
    let left = leave store session in
    let ch = entry left.0 channel_id in
    (insert channel_id (record ch { members = add session ch.members }) left.0, left.1)

unfoldable pub set_listening : ChannelStore → ℕ → ℕ → Bool → ChannelStore
set_listening store session channel_id listening = elim (lookup channel_id store) [
  | none ↦ store
  | some ch ↦
      insert channel_id
        (record ch {
          listeners = if listening then add session ch.listeners else discard session ch.listeners;
        })
        store
]

-- The loop of `drop_session` over every channel.
unfoldable pub stop_listening : ℕ → ChannelStore → ChannelStore
stop_listening session [] = []
stop_listening session ((k, ch) ∷ store) =
    (k, record ch { listeners = discard session ch.listeners }) ∷ stop_listening session store

unfoldable pub drop_session : ChannelStore → ℕ → ChannelStore
drop_session store session = stop_listening session (leave store session).0
