-- ===== src/Rage/SyncTrees/Craft.antt =====
-- The tables of crates/baston-protocol/src/rage/sync_trees.rs for planes, submarines and trains, in
-- preorder, which is the order on the wire.
use baston.Prelude.{List, [], ◌∷◌}
use baston.Rage.SyncTrees.Node.{FlatNode, p, d}

abbrev pub plane_tree : List FlatNode
plane_tree =
    p 0 (127, 0, 0)
    ∷ p 1 (1, 0, 0)
    ∷ d 2 (1, 0, 0) "CVehicleCreationDataNode" 14
    ∷ p 1 (127, 127, 0)
    ∷ p 2 (127, 127, 0)
    ∷ p 3 (127, 127, 0)
    ∷ d 4 (127, 127, 0) "CGlobalFlagsDataNode" 2
    ∷ d 4 (127, 127, 0) "CDynamicEntityGameStateDataNode" 102
    ∷ d 4 (127, 127, 0) "CPhysicalGameStateDataNode" 4
    ∷ d 4 (127, 127, 0) "CVehicleGameStateDataNode" 57
    ∷ p 3 (127, 127, 1)
    ∷ d 4 (127, 127, 1) "CEntityScriptGameStateDataNode" 1
    ∷ d 4 (127, 127, 1) "CPhysicalScriptGameStateDataNode" 13
    ∷ d 4 (127, 127, 1) "CVehicleScriptGameStateDataNode" 50
    ∷ d 4 (127, 127, 1) "CEntityScriptInfoDataNode" 24
    ∷ d 2 (127, 127, 0) "CPhysicalAttachDataNode" 28
    ∷ d 2 (127, 127, 0) "CVehicleAppearanceDataNode" 179
    ∷ d 2 (127, 127, 0) "CVehicleDamageStatusDataNode" 34
    ∷ d 2 (127, 127, 0) "CVehicleComponentReservationDataNode" 65
    ∷ d 2 (127, 127, 0) "CVehicleHealthDataNode" 57
    ∷ d 2 (127, 127, 0) "CVehicleTaskDataNode" 34
    ∷ d 2 (127, 127, 0) "CPlaneGameStateDataNode" 52
    ∷ p 1 (127, 86, 0)
    ∷ d 2 (87, 87, 0) "CSectorDataNode" 4
    ∷ d 2 (87, 87, 0) "CSectorPositionDataNode" 5
    ∷ d 2 (87, 87, 0) "CEntityOrientationDataNode" 5
    ∷ d 2 (87, 87, 0) "CPhysicalVelocityDataNode" 5
    ∷ d 2 (87, 87, 0) "CVehicleAngVelocityDataNode" 4
    ∷ p 2 (127, 86, 0)
    ∷ d 3 (86, 86, 0) "CVehicleSteeringDataNode" 2
    ∷ d 3 (87, 87, 0) "CVehicleControlDataNode" 28
    ∷ d 3 (127, 127, 0) "CVehicleGadgetDataNode" 31
    ∷ d 3 (86, 86, 0) "CPlaneControlDataNode" 7
    ∷ p 1 (4, 0, 0)
    ∷ d 2 (4, 0, 0) "CMigrationDataNode" 13
    ∷ d 2 (4, 0, 0) "CPhysicalMigrationDataNode" 1
    ∷ d 2 (4, 0, 1) "CPhysicalScriptMigrationDataNode" 1
    ∷ d 2 (4, 0, 0) "CVehicleProximityMigrationDataNode" 36
    ∷ []

abbrev pub submarine_tree : List FlatNode
submarine_tree =
    p 0 (127, 0, 0)
    ∷ p 1 (1, 0, 0)
    ∷ d 2 (1, 0, 0) "CVehicleCreationDataNode" 14
    ∷ p 1 (127, 87, 0)
    ∷ p 2 (127, 87, 0)
    ∷ p 3 (127, 87, 0)
    ∷ d 4 (127, 127, 0) "CGlobalFlagsDataNode" 2
    ∷ d 4 (127, 127, 0) "CDynamicEntityGameStateDataNode" 102
    ∷ d 4 (127, 127, 0) "CPhysicalGameStateDataNode" 4
    ∷ d 4 (127, 127, 0) "CVehicleGameStateDataNode" 57
    ∷ d 4 (87, 87, 0) "CSubmarineGameStateDataNode" 1
    ∷ p 3 (127, 127, 1)
    ∷ d 4 (127, 127, 1) "CEntityScriptGameStateDataNode" 1
    ∷ d 4 (127, 127, 1) "CPhysicalScriptGameStateDataNode" 13
    ∷ d 4 (127, 127, 1) "CVehicleScriptGameStateDataNode" 50
    ∷ d 4 (127, 127, 1) "CEntityScriptInfoDataNode" 24
    ∷ d 2 (127, 127, 0) "CPhysicalAttachDataNode" 28
    ∷ d 2 (127, 127, 0) "CVehicleAppearanceDataNode" 179
    ∷ d 2 (127, 127, 0) "CVehicleDamageStatusDataNode" 34
    ∷ d 2 (127, 127, 0) "CVehicleComponentReservationDataNode" 65
    ∷ d 2 (127, 127, 0) "CVehicleHealthDataNode" 57
    ∷ d 2 (127, 127, 0) "CVehicleTaskDataNode" 34
    ∷ p 1 (127, 86, 0)
    ∷ d 2 (87, 87, 0) "CSectorDataNode" 4
    ∷ d 2 (87, 87, 0) "CSectorPositionDataNode" 5
    ∷ d 2 (87, 87, 0) "CEntityOrientationDataNode" 5
    ∷ d 2 (87, 87, 0) "CPhysicalVelocityDataNode" 5
    ∷ d 2 (87, 87, 0) "CVehicleAngVelocityDataNode" 4
    ∷ p 2 (127, 86, 0)
    ∷ d 3 (86, 86, 0) "CVehicleSteeringDataNode" 2
    ∷ d 3 (87, 87, 0) "CVehicleControlDataNode" 28
    ∷ d 3 (127, 127, 0) "CVehicleGadgetDataNode" 31
    ∷ d 3 (86, 86, 0) "CSubmarineControlDataNode" 4
    ∷ p 1 (4, 0, 0)
    ∷ d 2 (4, 0, 0) "CMigrationDataNode" 13
    ∷ d 2 (4, 0, 0) "CPhysicalMigrationDataNode" 1
    ∷ d 2 (4, 0, 1) "CPhysicalScriptMigrationDataNode" 1
    ∷ d 2 (4, 0, 0) "CVehicleProximityMigrationDataNode" 36
    ∷ []

abbrev pub train_tree : List FlatNode
train_tree =
    p 0 (127, 0, 0)
    ∷ p 1 (1, 0, 0)
    ∷ d 2 (1, 0, 0) "CVehicleCreationDataNode" 14
    ∷ p 1 (127, 127, 0)
    ∷ p 2 (127, 127, 0)
    ∷ p 3 (127, 127, 0)
    ∷ d 4 (127, 127, 0) "CGlobalFlagsDataNode" 2
    ∷ d 4 (127, 127, 0) "CDynamicEntityGameStateDataNode" 102
    ∷ d 4 (127, 127, 0) "CPhysicalGameStateDataNode" 4
    ∷ d 4 (127, 127, 0) "CVehicleGameStateDataNode" 57
    ∷ d 4 (127, 127, 0) "CTrainGameStateDataNode" 17
    ∷ p 3 (127, 127, 1)
    ∷ d 4 (127, 127, 1) "CEntityScriptGameStateDataNode" 1
    ∷ d 4 (127, 127, 1) "CPhysicalScriptGameStateDataNode" 13
    ∷ d 4 (127, 127, 1) "CVehicleScriptGameStateDataNode" 50
    ∷ d 4 (127, 127, 1) "CEntityScriptInfoDataNode" 24
    ∷ d 2 (127, 127, 0) "CPhysicalAttachDataNode" 28
    ∷ d 2 (127, 127, 0) "CVehicleAppearanceDataNode" 179
    ∷ d 2 (127, 127, 0) "CVehicleDamageStatusDataNode" 34
    ∷ d 2 (127, 127, 0) "CVehicleComponentReservationDataNode" 65
    ∷ d 2 (127, 127, 0) "CVehicleHealthDataNode" 57
    ∷ d 2 (127, 127, 0) "CVehicleTaskDataNode" 34
    ∷ p 1 (127, 86, 0)
    ∷ d 2 (87, 87, 0) "CSectorDataNode" 4
    ∷ d 2 (87, 87, 0) "CSectorPositionDataNode" 5
    ∷ d 2 (87, 87, 0) "CEntityOrientationDataNode" 5
    ∷ d 2 (87, 87, 0) "CPhysicalVelocityDataNode" 5
    ∷ d 2 (87, 87, 0) "CVehicleAngVelocityDataNode" 4
    ∷ p 2 (127, 86, 0)
    ∷ d 3 (86, 86, 0) "CVehicleSteeringDataNode" 2
    ∷ d 3 (87, 87, 0) "CVehicleControlDataNode" 28
    ∷ d 3 (127, 127, 0) "CVehicleGadgetDataNode" 31
    ∷ p 1 (4, 0, 0)
    ∷ d 2 (4, 0, 0) "CMigrationDataNode" 13
    ∷ d 2 (4, 0, 0) "CPhysicalMigrationDataNode" 1
    ∷ d 2 (4, 0, 1) "CPhysicalScriptMigrationDataNode" 1
    ∷ d 2 (4, 0, 0) "CVehicleProximityMigrationDataNode" 36
    ∷ []
