-- ===== src/Rage/SyncTrees/Props.antt =====
-- The tables of crates/baston-protocol/src/rage/sync_trees.rs for doors, objects and pickups, in
-- preorder, which is the order on the wire.
use baston.Prelude.{List, [], ◌∷◌}
use baston.Rage.SyncTrees.Node.{FlatNode, p, d}

abbrev pub door_tree : List FlatNode
door_tree =
    p 0 (127, 0, 0)
    ∷ p 1 (1, 0, 0)
    ∷ d 2 (1, 0, 0) "CDoorCreationDataNode" 17
    ∷ p 1 (127, 127, 0)
    ∷ d 2 (127, 127, 0) "CGlobalFlagsDataNode" 2
    ∷ d 2 (127, 127, 1) "CDoorScriptInfoDataNode" 28
    ∷ d 2 (127, 127, 1) "CDoorScriptGameStateDataNode" 8
    ∷ d 1 (86, 86, 0) "CDoorMovementDataNode" 2
    ∷ p 1 (4, 0, 0)
    ∷ d 2 (4, 0, 0) "CMigrationDataNode" 13
    ∷ d 2 (4, 0, 1) "CPhysicalScriptMigrationDataNode" 1
    ∷ []

abbrev pub object_tree : List FlatNode
object_tree =
    p 0 (127, 0, 0)
    ∷ p 1 (1, 0, 0)
    ∷ d 2 (1, 0, 0) "CObjectCreationDataNode" 30
    ∷ p 1 (127, 127, 0)
    ∷ p 2 (127, 127, 0)
    ∷ p 3 (127, 127, 0)
    ∷ d 4 (127, 127, 0) "CGlobalFlagsDataNode" 2
    ∷ d 4 (127, 127, 0) "CDynamicEntityGameStateDataNode" 102
    ∷ d 4 (127, 127, 0) "CPhysicalGameStateDataNode" 4
    ∷ d 4 (127, 127, 0) "CObjectGameStateDataNode" 44
    ∷ p 3 (127, 127, 1)
    ∷ d 4 (127, 127, 1) "CEntityScriptGameStateDataNode" 1
    ∷ d 4 (127, 127, 1) "CPhysicalScriptGameStateDataNode" 13
    ∷ d 4 (127, 127, 1) "CObjectScriptGameStateDataNode" 14
    ∷ d 4 (127, 127, 1) "CEntityScriptInfoDataNode" 24
    ∷ d 2 (127, 127, 0) "CPhysicalAttachDataNode" 28
    ∷ d 2 (127, 127, 0) "CPhysicalHealthDataNode" 19
    ∷ p 1 (87, 87, 0)
    ∷ d 2 (87, 87, 0) "CSectorDataNode" 4
    ∷ d 2 (87, 87, 0) "CObjectSectorPosNode" 8
    ∷ d 2 (87, 87, 0) "CObjectOrientationDataNode" 8
    ∷ d 2 (87, 87, 0) "CPhysicalVelocityDataNode" 5
    ∷ d 2 (87, 87, 0) "CPhysicalAngVelocityDataNode" 4
    ∷ p 1 (4, 0, 0)
    ∷ d 2 (4, 0, 0) "CMigrationDataNode" 13
    ∷ d 2 (4, 0, 0) "CPhysicalMigrationDataNode" 1
    ∷ d 2 (4, 0, 1) "CPhysicalScriptMigrationDataNode" 1
    ∷ []

abbrev pub pickup_tree : List FlatNode
pickup_tree =
    p 0 (127, 0, 0)
    ∷ p 1 (1, 0, 0)
    ∷ d 2 (1, 0, 0) "CPickupCreationDataNode" 66
    ∷ p 1 (127, 127, 0)
    ∷ p 2 (127, 127, 0)
    ∷ d 3 (127, 127, 0) "CGlobalFlagsDataNode" 2
    ∷ d 3 (127, 127, 0) "CDynamicEntityGameStateDataNode" 102
    ∷ p 2 (127, 127, 1)
    ∷ d 3 (127, 127, 1) "CPickupScriptGameStateNode" 14
    ∷ d 3 (127, 127, 1) "CPhysicalGameStateDataNode" 4
    ∷ d 3 (127, 127, 1) "CEntityScriptGameStateDataNode" 1
    ∷ d 3 (127, 127, 1) "CPhysicalScriptGameStateDataNode" 13
    ∷ d 3 (127, 127, 1) "CEntityScriptInfoDataNode" 24
    ∷ d 3 (127, 127, 1) "CPhysicalHealthDataNode" 19
    ∷ d 2 (127, 127, 1) "CPhysicalAttachDataNode" 28
    ∷ p 1 (87, 87, 0)
    ∷ d 2 (87, 87, 0) "CSectorDataNode" 4
    ∷ d 2 (87, 87, 0) "CPickupSectorPosNode" 8
    ∷ d 2 (87, 87, 0) "CEntityOrientationDataNode" 5
    ∷ d 2 (87, 87, 0) "CPhysicalVelocityDataNode" 5
    ∷ d 2 (87, 87, 0) "CPhysicalAngVelocityDataNode" 4
    ∷ p 1 (4, 0, 0)
    ∷ d 2 (4, 0, 0) "CMigrationDataNode" 13
    ∷ d 2 (4, 0, 1) "CPhysicalMigrationDataNode" 1
    ∷ d 2 (4, 0, 1) "CPhysicalScriptMigrationDataNode" 1
    ∷ []

abbrev pub pickup_placement_tree : List FlatNode
pickup_placement_tree =
    p 0 (127, 0, 0)
    ∷ d 1 (1, 0, 0) "CPickupPlacementCreationDataNode" 54
    ∷ d 1 (4, 0, 0) "CMigrationDataNode" 13
    ∷ d 1 (127, 127, 0) "CGlobalFlagsDataNode" 2
    ∷ d 1 (127, 127, 0) "CPickupPlacementStateDataNode" 7
    ∷ []
