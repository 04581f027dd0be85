-- ===== src/Rage/SyncTrees/Peds.antt =====
-- The tables of crates/baston-protocol/src/rage/sync_trees.rs for peds and players, in
-- preorder, which is the order on the wire.
use baston.Prelude.{List, [], ◌∷◌}
use baston.Rage.SyncTrees.Node.{FlatNode, p, d}

abbrev pub ped_tree : List FlatNode
ped_tree =
    p 0 (127, 0, 0)
    ∷ p 1 (1, 0, 0)
    ∷ d 2 (1, 0, 0) "CPedCreationDataNode" 20
    ∷ d 2 (1, 0, 1) "CPedScriptCreationDataNode" 1
    ∷ p 1 (127, 87, 0)
    ∷ p 2 (127, 127, 0)
    ∷ p 3 (127, 127, 0)
    ∷ d 4 (127, 127, 0) "CGlobalFlagsDataNode" 2
    ∷ d 4 (127, 127, 0) "CDynamicEntityGameStateDataNode" 102
    ∷ d 4 (127, 127, 0) "CPhysicalGameStateDataNode" 4
    ∷ d 4 (127, 127, 0) "CPedGameStateDataNode" 104
    ∷ d 4 (127, 127, 0) "CPedComponentReservationDataNode" 65
    ∷ p 3 (127, 127, 1)
    ∷ d 4 (127, 127, 1) "CEntityScriptGameStateDataNode" 1
    ∷ d 4 (127, 127, 1) "CPhysicalScriptGameStateDataNode" 13
    ∷ d 4 (127, 127, 1) "CPedScriptGameStateDataNode" 115
    ∷ d 4 (127, 127, 1) "CEntityScriptInfoDataNode" 24
    ∷ d 2 (127, 127, 1) "CPedAttachDataNode" 22
    ∷ d 2 (127, 127, 0) "CPedHealthDataNode" 17
    ∷ d 2 (87, 87, 0) "CPedMovementGroupDataNode" 26
    ∷ d 2 (127, 127, 1) "CPedAIDataNode" 9
    ∷ d 2 (87, 87, 0) "CPedAppearanceDataNode" 141
    ∷ p 1 (127, 87, 0)
    ∷ d 2 (87, 87, 0) "CPedOrientationDataNode" 3
    ∷ d 2 (87, 87, 0) "CPedMovementDataNode" 5
    ∷ p 2 (127, 87, 0)
    ∷ d 3 (127, 127, 0) "CPedTaskTreeDataNode" 28
    ∷ d 3 (87, 87, 0) "CPedTaskSpecificDataNode" 77
    ∷ d 3 (87, 87, 0) "CPedTaskSpecificDataNode" 77
    ∷ d 3 (87, 87, 0) "CPedTaskSpecificDataNode" 77
    ∷ d 3 (87, 87, 0) "CPedTaskSpecificDataNode" 77
    ∷ d 3 (87, 87, 0) "CPedTaskSpecificDataNode" 77
    ∷ d 3 (87, 87, 0) "CPedTaskSpecificDataNode" 77
    ∷ d 3 (87, 87, 0) "CPedTaskSpecificDataNode" 77
    ∷ d 3 (87, 87, 0) "CPedTaskSpecificDataNode" 77
    ∷ d 2 (87, 87, 0) "CSectorDataNode" 4
    ∷ d 2 (87, 87, 0) "CPedSectorPosMapNode" 12
    ∷ d 2 (87, 87, 0) "CPedSectorPosNavMeshNode" 4
    ∷ p 1 (87, 0, 0)
    ∷ d 2 (4, 0, 0) "CMigrationDataNode" 13
    ∷ d 2 (4, 0, 0) "CPhysicalMigrationDataNode" 1
    ∷ d 2 (4, 0, 1) "CPhysicalScriptMigrationDataNode" 1
    ∷ d 2 (87, 0, 0) "CPedInventoryDataNode" 321
    ∷ d 2 (4, 4, 1) "CPedTaskSequenceDataNode" 1
    ∷ []

abbrev pub player_tree : List FlatNode
player_tree =
    p 0 (127, 0, 0)
    ∷ p 1 (1, 0, 0)
    ∷ d 2 (1, 0, 0) "CPlayerCreationDataNode" 128
    ∷ p 1 (127, 86, 0)
    ∷ p 2 (127, 87, 0)
    ∷ p 3 (127, 127, 0)
    ∷ d 4 (127, 127, 0) "CGlobalFlagsDataNode" 2
    ∷ d 4 (127, 127, 0) "CDynamicEntityGameStateDataNode" 102
    ∷ d 4 (127, 127, 0) "CPhysicalGameStateDataNode" 4
    ∷ d 4 (127, 127, 0) "CPedGameStateDataNode" 104
    ∷ d 4 (127, 127, 0) "CPedComponentReservationDataNode" 65
    ∷ p 3 (127, 87, 0)
    ∷ d 4 (127, 127, 1) "CEntityScriptGameStateDataNode" 1
    ∷ d 4 (87, 87, 0) "CPlayerGameStateDataNode" 104
    ∷ d 2 (127, 127, 1) "CPedAttachDataNode" 22
    ∷ d 2 (127, 127, 0) "CPedHealthDataNode" 17
    ∷ d 2 (87, 87, 0) "CPedMovementGroupDataNode" 26
    ∷ d 2 (127, 127, 1) "CPedAIDataNode" 9
    ∷ d 2 (87, 87, 0) "CPlayerAppearanceDataNode" 560
    ∷ d 2 (86, 86, 0) "CPlayerPedGroupDataNode" 19
    ∷ d 2 (86, 86, 0) "CPlayerAmbientModelStreamingNode" 5
    ∷ d 2 (86, 86, 0) "CPlayerGamerDataNode" 370
    ∷ d 2 (86, 86, 0) "CPlayerExtendedGameStateNode" 20
    ∷ p 1 (127, 86, 0)
    ∷ d 2 (87, 87, 0) "CPedOrientationDataNode" 3
    ∷ d 2 (87, 87, 0) "CPedMovementDataNode" 5
    ∷ p 2 (127, 87, 0)
    ∷ d 3 (127, 127, 0) "CPedTaskTreeDataNode" 28
    ∷ d 3 (87, 87, 0) "CPedTaskSpecificDataNode" 77
    ∷ d 3 (87, 87, 0) "CPedTaskSpecificDataNode" 77
    ∷ d 3 (87, 87, 0) "CPedTaskSpecificDataNode" 77
    ∷ d 3 (87, 87, 0) "CPedTaskSpecificDataNode" 77
    ∷ d 3 (87, 87, 0) "CPedTaskSpecificDataNode" 77
    ∷ d 3 (87, 87, 0) "CPedTaskSpecificDataNode" 77
    ∷ d 3 (87, 87, 0) "CPedTaskSpecificDataNode" 77
    ∷ d 3 (87, 87, 0) "CPedTaskSpecificDataNode" 77
    ∷ d 2 (87, 87, 0) "CSectorDataNode" 4
    ∷ d 2 (87, 87, 0) "CPlayerSectorPosNode" 13
    ∷ d 2 (86, 86, 0) "CPlayerCameraDataNode" 24
    ∷ d 2 (86, 86, 0) "CPlayerWantedAndLOSDataNode" 30
    ∷ p 1 (4, 0, 0)
    ∷ d 2 (4, 0, 0) "CMigrationDataNode" 13
    ∷ d 2 (4, 0, 0) "CPhysicalMigrationDataNode" 1
    ∷ d 2 (4, 0, 1) "CPhysicalScriptMigrationDataNode" 1
    ∷ []
