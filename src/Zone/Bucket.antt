-- ===== src/Zone/Bucket.antt =====
-- The routing buckets of a zone, crates/baston-zone/src/routing_bucket.rs. The lock around the
-- registry makes each method one step on its state.
pub mod Laws
use baston.Prelude.Map.{lookup, insert, remove}
use baston.Prelude.{ℕ, ◌==◌, Bool, true, false, ◌&&◌, Option, none, some, List, [], if◌then◌else◌}

pub data LockdownMode : Type 0 where
  inactive : LockdownMode
  relaxed : LockdownMode
  strict : LockdownMode

pub record BucketPolicy : Type 0 where
  pub lockdown : LockdownMode
  pub population_enabled : Bool

unfoldable pub default_policy : BucketPolicy
default_policy = record { lockdown = inactive; population_enabled = true }

pub record RegistryState : Type 0 where
  pub players : List (ℕ × ℕ)
  pub entities : List (ℕ × ℕ)
  pub policies : List (ℕ × BucketPolicy)

unfoldable pub new_registry : RegistryState
new_registry = record { players = []; entities = []; policies = [] }

-- `unwrap_or(0)`
unfoldable pub or_zero : Option ℕ → ℕ
or_zero none = 0
or_zero (some b) = b

unfoldable pub player_bucket : RegistryState → ℕ → ℕ
player_bucket s source = or_zero (lookup source s.players)

unfoldable pub entity_bucket : RegistryState → ℕ → ℕ
entity_bucket s object_id = or_zero (lookup object_id s.entities)

unfoldable pub set_player_bucket : RegistryState → ℕ → ℕ → RegistryState
set_player_bucket s source bucket = record s {
  players = if bucket == 0 then remove source s.players else insert source bucket s.players;
}

unfoldable pub set_entity_bucket : RegistryState → ℕ → ℕ → RegistryState
set_entity_bucket s object_id bucket = record s {
  entities =
      if bucket == 0 then remove object_id s.entities else insert object_id bucket s.entities;
}

unfoldable pub remove_player : RegistryState → ℕ → RegistryState
remove_player s source = record s { players = remove source s.players }

unfoldable pub remove_entity : RegistryState → ℕ → RegistryState
remove_entity s object_id = record s { entities = remove object_id s.entities }

unfoldable pub policy : RegistryState → ℕ → BucketPolicy
policy s bucket = elim (lookup bucket s.policies) [ none ↦ default_policy | some p ↦ p ]

-- `entry(bucket).or_default()` is what `policy` reads.
unfoldable pub set_lockdown : RegistryState → ℕ → LockdownMode → RegistryState
set_lockdown s bucket mode = record s {
  policies = insert bucket (record (policy s bucket) { lockdown = mode }) s.policies;
}

unfoldable pub set_population_enabled : RegistryState → ℕ → Bool → RegistryState
set_population_enabled s bucket enabled = record s {
  policies = insert bucket (record (policy s bucket) { population_enabled = enabled }) s.policies;
}

unfoldable pub visible : RegistryState → ℕ → ℕ → Bool
visible s source object_id = player_bucket s source == entity_bucket s object_id

-- `!= LockdownMode::Strict`
unfoldable pub not_strict : LockdownMode → Bool
not_strict inactive = true
not_strict relaxed = true
not_strict strict = false

unfoldable pub allows_client_create : RegistryState → ℕ → Bool
allows_client_create s source = not_strict (policy s (player_bucket s source)).lockdown

unfoldable pub allows_takeover : RegistryState → ℕ → ℕ → ℕ → Bool
allows_takeover s sender target object_id =
    let bucket = entity_bucket s object_id in
    (player_bucket s sender == bucket) && (player_bucket s target == bucket)
