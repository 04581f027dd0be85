-- ===== src/Zone/Handoff/Reach.antt =====
-- A zone's handoffs as they interleave: the manager, the clock, the calls of the gateway in flight,
-- and what is in flight behind an accepted crossing. The scan of
-- crates/baston-zone/src/boundary_loop.rs begins calls and cancels, replies come in any order, and a
-- release forgets a player. `complete_handoff` of that file activates an accepted player on the target
-- zone, and rolls the crossing back if that fails.
use baston.Zone.Handoff.{
  HandoffManager, new, Name, state_of, elapsed, begin_request, end_request, begin_confirm,
  end_confirm, cancel, forget, prune_expired, prepared, Reply, PrepareHandoffResponse,
  ConfirmHandoffResponse, prepare_timeout, ConfirmHandoffRequest, begin_rollback,
}
use baston.Prelude.{
  ℕ, ◌+◌, ◌≡◌, Bool, true, false, Option, none, some, List, [], ◌∷◌, ◌++◌, All, leb, ◌==◌,
  if◌then◌else◌,
}

pub data GatewayCall : Type 0 where
  prepare : (requested_at : ℕ) → GatewayCall
  confirm : (target : Name × Name) → GatewayCall

pub record Flight : Type 0 where
  pub player_id : ℕ
  pub call : GatewayCall

-- Behind an accepted crossing: the activation on the target zone, or the gateway's `ConfirmHandoff`
-- that undoes the crossing.
pub data CrossingCall : Type 0 where
  activate : (target : Name × Name) → CrossingCall
  rollback : ConfirmHandoffRequest → CrossingCall

pub record Crossing : Type 0 where
  pub player_id : ℕ
  pub call : CrossingCall

pub record World : Type 0 where
  pub zone_id : Name
  pub clock : ℕ
  pub manager : HandoffManager
  pub calls : List Flight
  pub crossings : List Crossing

unfoldable pub start : Name → ℕ → World
start zone_id cooldown_secs = record {
  zone_id = zone_id;
  clock = 0;
  manager = new cooldown_secs;
  calls = [];
  crossings = [];
}

-- `tokio::time::timeout` ends a call after the time that it is given.
abbrev pub in_time : ℕ → GatewayCall → Bool
in_time now (prepare requested_at) = leb (elapsed now requested_at) prepare_timeout
in_time now (confirm _) = true

abbrev pub IsInTime : ℕ → Flight → Type 0
IsInTime now c = in_time now c.call ≡ true

-- What a player has in flight, in terms of what the manager knows.
pub data Kind : Type 0 where
  preparing : (requested_at : ℕ) → Kind
  confirming : Kind

abbrev pub kind_of : GatewayCall → Kind
kind_of (prepare requested_at) = preparing requested_at
kind_of (confirm _) = confirming

unfoldable pub in_flight : ℕ → List Flight → List Kind
in_flight p [] = []
in_flight p (c ∷ cs) =
    let rest = in_flight p cs in if c.player_id == p then kind_of c.call ∷ rest else rest

unfoldable pub after_request : ℕ → World → HandoffManager × Bool → World
after_request p w (m, false) = record w { manager = m }
after_request p w (m, true) = record w {
  manager = m;
  calls = record { player_id = p; call = prepare w.clock } ∷ w.calls;
}

unfoldable pub after_confirm : ℕ → World → HandoffManager × Option (Name × Name) → World
after_confirm p w (m, none) = record w { manager = m }
after_confirm p w (m, some target) = record w {
  manager = m;
  calls = record { player_id = p; call = confirm target } ∷ w.calls;
}

unfoldable pub after_crossing : ℕ → Option (Name × Name) → List Crossing → List Crossing
after_crossing p none crossings = crossings
after_crossing p (some target) crossings =
    record { player_id = p; call = activate target } ∷ crossings

unfoldable pub after_activation : Name → ℕ → Bool → List Crossing → List Crossing
after_activation zone_id p true crossings = crossings
after_activation zone_id p false crossings =
    record { player_id = p; call = rollback (begin_rollback zone_id p) } ∷ crossings

pub data Step (w : World) : World → Type 0 where
  tick : (d : ℕ) → All (IsInTime (w.clock + d)) w.calls → Step w (record w { clock = w.clock + d })
  request : (p : ℕ) → Step w (after_request p w (begin_request w.clock p w.manager))
  prepare_reply :
      (before after : List Flight) (p requested_at : ℕ) (reply : Reply PrepareHandoffResponse)
      → w.calls ≡ before ++ (record { player_id = p; call = prepare requested_at } ∷ after)
      → Step w (record w {
        manager = (end_request w.clock p reply w.manager).0;
        calls = before ++ after;
      })
  cross : (p : ℕ) → Step w (after_confirm p w (begin_confirm p w.manager))
  confirm_reply :
      (before after : List Flight) (p : ℕ) (target : Name × Name)
      (reply : Reply ConfirmHandoffResponse)
      → w.calls ≡ before ++ (record { player_id = p; call = confirm target } ∷ after)
      → Step w (record w {
        manager = (end_confirm w.clock p target reply w.manager).0;
        calls = before ++ after;
        crossings = after_crossing p (end_confirm w.clock p target reply w.manager).1 w.crossings;
      })
  activate_reply :
      (before after : List Crossing) (p : ℕ) (target : Name × Name) (activated : Bool)
      → w.crossings ≡ before ++ (record { player_id = p; call = activate target } ∷ after)
      → Step w (record w { crossings = after_activation w.zone_id p activated (before ++ after) })
  rollback_reply :
      (before after : List Crossing) (p : ℕ) (request : ConfirmHandoffRequest)
      → w.crossings ≡ before ++ (record { player_id = p; call = rollback request } ∷ after)
      → Step w (record w { crossings = before ++ after })
  turn_around :
      (p : ℕ) (target : Name × Name)
      → prepared (state_of p w.manager) ≡ some target
      → Step w (record w { manager = cancel w.clock p w.manager })
  prune : Step w (record w { manager = prune_expired w.clock w.manager })
  release : (p : ℕ) → in_flight p w.calls ≡ [] → Step w (record w { manager = forget p w.manager })

pub data Reach (s : World) : World → Type 0 where
  here : Reach s s
  next : {t u : World} → Reach s t → Step t u → Reach s u
