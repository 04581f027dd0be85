-- ===== src/Rage/SyncTrees.antt =====
-- The sync trees of the entity types, crates/baston-protocol/src/rage/sync_trees.rs.
pub mod Node
pub mod Vehicles
pub mod Craft
pub mod Peds
pub mod Props
use baston.Prelude.{List}
use baston.Rage.Clone.{
  NetObjEntityType, automobile, bike, boat, door, heli, object, ped, pickup, pickup_placement,
  plane, submarine, player, trailer, train,
}
use baston.Rage.SyncTrees.Node.{FlatNode}
use baston.Rage.SyncTrees.Vehicles.{automobile_tree, bike_tree, boat_tree, heli_tree}
use baston.Rage.SyncTrees.Craft.{plane_tree, submarine_tree, train_tree}
use baston.Rage.SyncTrees.Peds.{ped_tree, player_tree}
use baston.Rage.SyncTrees.Props.{door_tree, object_tree, pickup_tree, pickup_placement_tree}

unfoldable pub tree_for : NetObjEntityType → List FlatNode
tree_for automobile = automobile_tree
tree_for bike = bike_tree
tree_for boat = boat_tree
tree_for door = door_tree
tree_for heli = heli_tree
tree_for object = object_tree
tree_for ped = ped_tree
tree_for pickup = pickup_tree
tree_for pickup_placement = pickup_placement_tree
tree_for plane = plane_tree
tree_for submarine = submarine_tree
tree_for player = player_tree
tree_for trailer = automobile_tree
tree_for train = train_tree
