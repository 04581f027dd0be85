-- ===== src/Gateway/Tests.antt =====
-- The theorems on the gateway at concrete inputs.
use baston.Prelude.{◌≡◌, ◌↔◌, true, none, refl, some, List, [], ◌∷◌, length}
use baston.Prelude.Map.{member}
use baston.Gateway.ConnectionRouter.{
  new, zone_of, players_in_zone, count_in_zone, commit_handoff, remove_player,
}
use baston.Gateway.ConnectionRouter.Laws.{
  Call, connect, handoff, batch, leave, run, places_after, run-places_after, move_all,
}

abbrev calls : List Call
calls =
    connect 1 (0x41 ∷ [])
    ∷ connect 2 (0x41 ∷ [])
    ∷ handoff 1 (0x42 ∷ [])
    ∷ batch ((3, 0x42 ∷ []) ∷ (1, 0x43 ∷ []) ∷ [])
    ∷ leave 2
    ∷ []

run-places_after_example :
    let r = run calls new in
    let place = places_after calls (λ _. none) 3 in
    (zone_of 3 r ≡ place)
    × ((commit_handoff 3 (0x42 ∷ []) r).1 ≡ place)
    × ((remove_player 3 r).1 ≡ place)
    × ((member 3 (players_in_zone (0x42 ∷ []) r) ≡ true) ↔ (place ≡ some (0x42 ∷ [])))
    × (count_in_zone (0x42 ∷ []) r ≡ length (players_in_zone (0x42 ∷ []) r))
run-places_after_example = run-places_after calls 3 (0x42 ∷ [])

-- Player 1 ends where the batch put it.
places_after-calls : places_after calls (λ _. none) 1 ≡ some (0x43 ∷ [])
unfolding places_after move_all
places_after-calls = refl
