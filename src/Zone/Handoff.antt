-- ===== src/Zone/Handoff.antt =====
-- The handoffs of a zone, crates/baston-zone/src/handoff_manager.rs. A method that awaits the gateway
-- is two steps, one up to the call and one from its answer on, and other calls may come in between.
-- Instants are numbers of milliseconds, and the clock's reading is an argument.
pub mod Reach
pub mod Entries
pub mod Crossings
pub mod Exclusive
pub mod Cooldown
use baston.Prelude.Map.{lookup, insert, remove}
use baston.Prelude.{
  ℕ, ◌-◌, ◌*◌, Bool, true, false, ◌||◌, not, Option, none, some, List, [], ◌∷◌, ltb, if◌then◌else◌,
}

-- `PREPARE_TIMEOUT`, two seconds.
abbrev pub prepare_timeout : ℕ
prepare_timeout = 2000

-- Names and addresses of zones, as character codes.
abbrev pub Name : Type 0
Name = List ℕ

pub data HandoffState : Type 0 where
  preparation_requested : (target_zone : Name) → (requested_at : ℕ) → HandoffState
  ready_to_transfer : (target_zone target_grpc : Name) → HandoffState
  transferring : HandoffState

pub record HandoffManager : Type 0 where
  pub pending_handoffs : List (ℕ × HandoffState)
  pub cooldowns : List (ℕ × ℕ)
  pub cooldown : ℕ

unfoldable pub new : ℕ → HandoffManager
new cooldown_secs = record {
  pending_handoffs = [];
  cooldowns = [];
  cooldown = cooldown_secs * 1000;
}

unfoldable pub state_of : ℕ → HandoffManager → Option HandoffState
state_of player_id m = lookup player_id m.pending_handoffs

-- `elapsed`
abbrev pub elapsed : ℕ → ℕ → ℕ
elapsed now t = now - t

abbrev pub recent : ℕ → ℕ → Option ℕ → Bool
recent now cooldown none = false
recent now cooldown (some t) = ltb (elapsed now t) cooldown

unfoldable pub in_cooldown : ℕ → ℕ → HandoffManager → Bool
in_cooldown now player_id m = recent now m.cooldown (lookup player_id m.cooldowns)

abbrev pub is_some : {A : Type 0} → Option A → Bool
is_some none = false
is_some (some _) = true

-- `request_handoff` up to the call of the gateway, and whether it is called.
unfoldable pub begin_request : ℕ → ℕ → HandoffManager → HandoffManager × Bool
begin_request now player_id m =
    if is_some (state_of player_id m) || in_cooldown now player_id m then (m, false) else (
      record m {
        pending_handoffs = insert player_id (preparation_requested [] now) m.pending_handoffs;
      },
      true,
    )

-- What comes of a call of the gateway: its answer, an error of the call, or no answer in time.
pub data Reply (Answer : Type 0) : Type 0 where
  answered : Answer → Reply Answer
  rpc_failed : Reply Answer
  timed_out : Reply Answer

pub record PrepareHandoffResponse : Type 0 where
  pub ready : Bool
  pub target_zone : Name
  pub target_zone_grpc : Name

pub record ConfirmHandoffResponse : Type 0 where
  pub accepted : Bool

unfoldable pub cancel : ℕ → ℕ → HandoffManager → HandoffManager
cancel now player_id m =
    if is_some (state_of player_id m)
    then record m {
      pending_handoffs = remove player_id m.pending_handoffs;
      cooldowns = insert player_id now m.cooldowns;
    }
    else m

-- `request_handoff` from the reply on.
unfoldable pub end_request :
    ℕ → ℕ → Reply PrepareHandoffResponse → HandoffManager → HandoffManager × Option Name
end_request now player_id (answered resp) m =
    if resp.ready
    then (
      record m {
        pending_handoffs =
            insert player_id (ready_to_transfer resp.target_zone resp.target_zone_grpc)
              m.pending_handoffs;
      },
      some resp.target_zone,
    )
    else (cancel now player_id m, none)
end_request now player_id rpc_failed m = (cancel now player_id m, none)
end_request now player_id timed_out m = (cancel now player_id m, none)

unfoldable pub is_accepted : Reply ConfirmHandoffResponse → Bool
is_accepted (answered resp) = resp.accepted
is_accepted rpc_failed = false
is_accepted timed_out = false

pub record ConfirmHandoffRequest : Type 0 where
  pub player_id : ℕ
  pub from_zone : Name
  pub to_zone : Name

-- `rollback_crossing` up to the call of the gateway: the request, for the manager's own zone. The
-- manager is neither read nor changed.
unfoldable pub begin_rollback : Name → ℕ → ConfirmHandoffRequest
begin_rollback zone_id player_id = record {
  player_id = player_id;
  from_zone = zone_id;
  to_zone = zone_id;
}

-- `rollback_crossing` from the reply on.
unfoldable pub end_rollback : Reply ConfirmHandoffResponse → Bool
end_rollback reply = is_accepted reply

unfoldable pub forget : ℕ → HandoffManager → HandoffManager
forget player_id m = record m {
  pending_handoffs = remove player_id m.pending_handoffs;
  cooldowns = remove player_id m.cooldowns;
}

unfoldable pub kept : ℕ → HandoffState → Bool
kept now (preparation_requested _ requested_at) =
    ltb (elapsed now requested_at) (prepare_timeout * 2)
kept now (ready_to_transfer _ _) = true
kept now transferring = true

unfoldable pub retain : {V : Type 0} → (V → Bool) → List (ℕ × V) → List (ℕ × V)
retain keep [] = []
retain keep ((k, v) ∷ m) = let rest = retain keep m in if keep v then (k, v) ∷ rest else rest

unfoldable pub prune_expired : ℕ → HandoffManager → HandoffManager
prune_expired now m = record m {
  cooldowns = retain (λ at. ltb (elapsed now at) m.cooldown) m.cooldowns;
  pending_handoffs = retain (kept now) m.pending_handoffs;
}

-- What `confirm_crossing` asks the gateway for.
unfoldable pub prepared : Option HandoffState → Option (Name × Name)
prepared (some (ready_to_transfer target_zone target_grpc)) = some (target_zone, target_grpc)
prepared (some (preparation_requested _ _)) = none
prepared (some transferring) = none
prepared none = none

unfoldable pub begin_transfer :
    ℕ → HandoffManager → Option (Name × Name) → HandoffManager × Option (Name × Name)
begin_transfer player_id m none = (m, none)
begin_transfer player_id m (some target) =
    (record m { pending_handoffs = insert player_id transferring m.pending_handoffs }, some target)

-- `confirm_crossing` up to the call of the gateway, with the target that it is called for.
unfoldable pub begin_confirm : ℕ → HandoffManager → HandoffManager × Option (Name × Name)
begin_confirm player_id m = begin_transfer player_id m (prepared (state_of player_id m))

-- `confirm_crossing` from the reply on.
unfoldable pub end_confirm :
    ℕ
    → ℕ
    → Name × Name
    → Reply ConfirmHandoffResponse
    → HandoffManager
    → HandoffManager × Option (Name × Name)
end_confirm now player_id target reply m =
    if is_accepted reply
    then (
      record m {
        pending_handoffs = remove player_id m.pending_handoffs;
        cooldowns = insert player_id now m.cooldowns;
      },
      some target,
    )
    else (cancel now player_id m, none)
