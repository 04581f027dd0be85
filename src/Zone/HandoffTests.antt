-- ===== src/Zone/HandoffTests.antt =====
-- The theorems on handoffs at concrete inputs.
use baston.Prelude.{
  refl, All, ◌-◌, ◌≡◌, true, not, none, some, [], ◌∷◌, ltb, ◌==◌, if◌then◌else◌, false,
}
use baston.Prelude.Map.{lookup, insert, remove}
use baston.Zone.Handoff.{
  is_accepted, begin_rollback, end_confirm, HandoffManager, new, state_of, in_cooldown,
  preparation_requested, ready_to_transfer, answered, timed_out, PrepareHandoffResponse,
  begin_request, end_request, begin_confirm, begin_transfer, prepared, forget, prune_expired,
}
use baston.Zone.Handoff.Reach.{
  World, start, prepare, rollback, after_crossing, after_activation, activate_reply, confirm_reply,
  in_flight, after_request, after_confirm, Reach, here, next, request, tick, prepare_reply, cross,
}
use baston.Zone.Handoff.Crossings.{IsHome}
use baston.Zone.Handoff.Entries.{expected}
use baston.Zone.Handoff.Exclusive.{in_flight-expected}
use baston.Zone.Handoff.Cooldown.{end_request-fails, end_request-forget}

abbrev resp : PrepareHandoffResponse
resp = record { ready = true; target_zone = 0x42 ∷ []; target_zone_grpc = 0x67 ∷ [] }

-- Player 4 requests a handoff, the target is ready half a second later, and the player crosses. The
-- gateway accepts, but the activation fails, and a rollback is sent while player 5 requests a handoff.
abbrev rolling_back : World
rolling_back = record {
  zone_id = 0x41 ∷ [];
  clock = 500;
  manager = record {
    pending_handoffs = (5, preparation_requested [] 500) ∷ [];
    cooldowns = (4, 500) ∷ [];
    cooldown = 10000;
  };
  calls = record { player_id = 5; call = prepare 500 } ∷ [];
  crossings =
      record {
        player_id = 4;
        call = rollback (record { player_id = 4; from_zone = 0x41 ∷ []; to_zone = 0x41 ∷ [] });
      }
      ∷ [];
}

rolling_back-Reach : Reach (start (0x41 ∷ []) 10) rolling_back
unfolding start new after_request after_confirm after_crossing after_activation begin_request
    end_request begin_confirm begin_transfer prepared state_of in_cooldown lookup insert end_confirm
    is_accepted begin_rollback remove
rolling_back-Reach =
    next
      (next
        (next
          (next
            (next (next (next here (request 4)) (tick 500 (refl, tt)))
              (prepare_reply [] [] 4 0 (answered resp) refl))
            (cross 4))
          (confirm_reply [] [] 4 (0x42 ∷ [], 0x67 ∷ []) (answered (record { accepted = true }))
            refl))
        (activate_reply [] [] 4 (0x42 ∷ [], 0x67 ∷ []) false refl))
      (request 5)

in_flight-expected_example :
    (in_flight 5 rolling_back.calls ≡ expected (state_of 5 rolling_back.manager))
    × All (IsHome rolling_back.zone_id) rolling_back.crossings
in_flight-expected_example = in_flight-expected (0x41 ∷ []) 10 rolling_back 5 rolling_back-Reach

abbrev requested : HandoffManager
requested = record {
  pending_handoffs = (4, preparation_requested [] 0) ∷ [];
  cooldowns = [];
  cooldown = 10000;
}

end_request-fails_example :
    let r = end_request 2000 4 timed_out requested in
    (r.1 ≡ none)
    × (state_of 5 r.0 ≡ (if 4 == 5 then none else state_of 5 requested))
    × ((begin_request 9000 4 r.0).1 ≡ not (ltb (9000 - 2000) 10000))
unfolding state_of lookup
end_request-fails_example =
    end_request-fails 2000 9000 4 5 timed_out (preparation_requested [] 0) requested refl refl

end_request-forget_example :
    state_of 4 (prune_expired 900000 (end_request 500 4 (answered resp) (forget 4 requested)).0)
    ≡ some (ready_to_transfer resp.target_zone resp.target_zone_grpc)
end_request-forget_example = end_request-forget 500 900000 4 resp requested refl
