-- ===== src/Zone/Tests.antt =====
-- The theorems on a zone's parts at concrete inputs.
use baston.Prelude.{◌==◌, ◌≡◌, ◌&&◌, List, [], ◌∷◌}
use baston.Zone.Bucket.{
  strict, new_registry, visible, not_strict, allows_client_create, allows_takeover,
}
use baston.Zone.Bucket.Laws.{Call, player, entity, lockdown, run, run_view, initial, run-View}

abbrev calls : List Call
calls = player 1 7 ∷ player 2 8 ∷ entity 100 7 ∷ lockdown 7 strict ∷ player 2 7 ∷ []

run-View_example :
    (visible (run new_registry calls) 1 100
      ≡ ((run_view initial calls).player_in 1 == (run_view initial calls).entity_in 100))
    × (allows_client_create (run new_registry calls) 1
        ≡ not_strict ((run_view initial calls).mode_of ((run_view initial calls).player_in 1)))
    × (allows_takeover (run new_registry calls) 1 2 100 ≡ (
        ((run_view initial calls).player_in 1 == (run_view initial calls).entity_in 100)
        && ((run_view initial calls).player_in 2 == (run_view initial calls).entity_in 100)))
run-View_example = run-View calls 1 2 100
