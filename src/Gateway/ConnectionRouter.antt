-- ===== src/Gateway/ConnectionRouter.antt =====
-- Which zone each player is routed to, crates/baston-gateway/src/connection_router.rs. The table is a
-- concurrent map, each of whose operations is one step; the lock only puts the commits in an order.
pub mod Laws
use baston.Prelude.Map.{lookup, insert, remove}
use baston.Prelude.{ℕ, zero, suc, Option, List, [], ◌∷◌, if◌then◌else◌, length}
use baston.Rage.SyncTrees.Node.{Name, same_name}

pub record ConnectionRouter : Type 0 where
  pub routing_table : List (ℕ × Name)

unfoldable pub new : ConnectionRouter
new = record { routing_table = [] }

unfoldable pub assign : ℕ → Name → ConnectionRouter → ConnectionRouter
assign source zone_id r = record { routing_table = insert source zone_id r.routing_table }

unfoldable pub zone_of : ℕ → ConnectionRouter → Option Name
zone_of source r = lookup source r.routing_table

-- The new table, and the previous zone.
unfoldable pub commit_handoff : ℕ → Name → ConnectionRouter → ConnectionRouter × Option Name
commit_handoff source to_zone r = (
  record { routing_table = insert source to_zone r.routing_table },
  lookup source r.routing_table,
)

unfoldable pub commit_batch : List (ℕ × Name) → ConnectionRouter → ConnectionRouter
commit_batch [] r = r
commit_batch ((source, zone) ∷ assignments) r =
    commit_batch assignments (record { routing_table = insert source zone r.routing_table })

unfoldable pub remove_player : ℕ → ConnectionRouter → ConnectionRouter × Option Name
remove_player source r =
    (record { routing_table = remove source r.routing_table }, lookup source r.routing_table)

unfoldable pub in_zone : Name → List (ℕ × Name) → List ℕ
in_zone zone_id [] = []
in_zone zone_id ((source, zone) ∷ table) =
    let rest = in_zone zone_id table in if same_name zone zone_id then source ∷ rest else rest

unfoldable pub players_in_zone : Name → ConnectionRouter → List ℕ
players_in_zone zone_id r = in_zone zone_id r.routing_table

unfoldable pub all : ConnectionRouter → List (ℕ × Name)
all r = r.routing_table

unfoldable pub count : Name → List (ℕ × Name) → ℕ
count zone_id [] = 0
count zone_id ((source, zone) ∷ table) =
    let rest = count zone_id table in if same_name zone zone_id then suc rest else rest

unfoldable pub count_in_zone : Name → ConnectionRouter → ℕ
count_in_zone zone_id r = count zone_id r.routing_table
