-- ===== src/Zone/Handoff/Crossings.antt =====
-- What is in flight behind an accepted crossing.
use baston.Zone.Handoff.{Name, begin_rollback}
use baston.Zone.Handoff.Reach.{
  CrossingCall, activate, rollback, Crossing, after_crossing, after_activation,
}
use baston.Prelude.{refl, ℕ, ◌≡◌, Bool, true, false, Option, none, some, List, All}

-- A rollback names the zone itself, as where its player goes too.
abbrev pub IsHomeCall : Name → ℕ → CrossingCall → Type 0
IsHomeCall zone_id p (activate target) = Unit
IsHomeCall zone_id p (rollback sent) =
    (sent.player_id ≡ p) × (sent.from_zone ≡ zone_id) × (sent.to_zone ≡ zone_id)

abbrev pub IsHome : Name → Crossing → Type 0
IsHome zone_id c = IsHomeCall zone_id c.player_id c.call

pub after_crossing-IsHome :
    (zone_id : Name) (p : ℕ) (target : Option (Name × Name)) (crossings : List Crossing)
    → All (IsHome zone_id) crossings
    → All (IsHome zone_id) (after_crossing p target crossings)
unfolding after_crossing
after_crossing-IsHome zone_id p none crossings h = h
after_crossing-IsHome zone_id p (some target) crossings h = (tt, h)

pub after_activation-IsHome :
    (zone_id : Name) (p : ℕ) (activated : Bool) (crossings : List Crossing)
    → All (IsHome zone_id) crossings
    → All (IsHome zone_id) (after_activation zone_id p activated crossings)
unfolding after_activation begin_rollback
after_activation-IsHome zone_id p true crossings h = h
after_activation-IsHome zone_id p false crossings h = ((refl, refl, refl), h)
