-- ===== src/Voice/Session.antt =====
-- The voice sessions, crates/baston-voice/src/session.rs, and their whisper targets,
-- crates/baston-voice/src/target.rs. A name is its bytes; a registry is in key order.
use baston.Prelude.Map.{lookup, insert, remove}
use baston.Prelude.{
  ℕ, Bool, true, false, ◌&&◌, not, Option, none, some, List, [], ◌∷◌, leb, ◌==◌, if◌then◌else◌,
}

abbrev pub min_target_id : ℕ
min_target_id = 1

abbrev pub max_target_id : ℕ
max_target_id = 30

pub record ChannelTarget : Type 0 where
  pub channel_id : ℕ
  pub links : Bool
  pub children : Bool

pub record Target : Type 0 where
  pub sessions : List ℕ
  pub channels : List ChannelTarget

abbrev pub TargetRegistry : Type 0
TargetRegistry = List (ℕ × Target)

-- `TargetRegistry::set`, `clear`, `clear_all` and `get`
unfoldable pub set_target : TargetRegistry → ℕ → Target → TargetRegistry
set_target r id target =
    if leb min_target_id id && leb id max_target_id then insert id target r else r

unfoldable pub clear : TargetRegistry → ℕ → TargetRegistry
clear r id = remove id r

unfoldable pub clear_all : TargetRegistry → TargetRegistry
clear_all r = []

unfoldable pub get_target : TargetRegistry → ℕ → Option Target
get_target r id = lookup id r

pub record Session : Type 0 where
  pub id : ℕ
  pub name : List ℕ
  pub mute : Bool
  pub self_deaf : Bool
  pub deaf : Bool
  pub context : Option (List ℕ)
  pub targets : TargetRegistry

unfoldable pub new_session : ℕ → List ℕ → Session
new_session id name = record {
  id = id;
  name = name;
  mute = false;
  self_deaf = false;
  deaf = false;
  context = none;
  targets = [];
}

unfoldable pub can_speak : Session → Bool
can_speak s = not s.mute

unfoldable pub can_hear : Session → Bool
can_hear s = not s.deaf && not s.self_deaf

abbrev pub SessionRegistry : Type 0
SessionRegistry = List (ℕ × Session)

-- `SessionRegistry::insert`, with the session that it returns: an old one stays as it is.
unfoldable pub insert_session : SessionRegistry → ℕ → List ℕ → SessionRegistry × Session
insert_session sessions netid name = elim (lookup netid sessions) [
  | some s ↦ (sessions, s)
  | none ↦ (insert netid (new_session netid name) sessions, new_session netid name)
]

unfoldable pub get : SessionRegistry → ℕ → Option Session
get sessions id = lookup id sessions

-- `SessionRegistry::remove`, with the session that it takes out.
unfoldable pub remove_session : SessionRegistry → ℕ → SessionRegistry × Option Session
remove_session sessions id = (remove id sessions, lookup id sessions)

-- `==` on two byte strings.
unfoldable pub same_bytes : List ℕ → List ℕ → Bool
same_bytes [] [] = true
same_bytes [] (_ ∷ _) = false
same_bytes (_ ∷ _) [] = false
same_bytes (a ∷ xs) (b ∷ ys) = (a == b) && same_bytes xs ys

unfoldable pub same_context : Option (List ℕ) → Option (List ℕ) → Bool
same_context (some ca) (some cb) = same_bytes ca cb
same_context (some _) none = false
same_context none cb = false

unfoldable pub contexts_match : SessionRegistry → ℕ → ℕ → Bool
contexts_match sessions a b = elim (get sessions a) [
  | none ↦ false
  | some sa ↦ elim (get sessions b) [ none ↦ false | some sb ↦ same_context sa.context sb.context ]
]
