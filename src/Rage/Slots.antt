-- ===== src/Rage/Slots.antt =====
-- `SlotAllocator`, crates/baston-protocol/src/rage/session.rs: the map of the remote players in
-- scope onto the game's player slots.
pub mod Laws
use baston.Prelude.{ℕ, zero, suc, ◌+◌, ◌==◌, Option, none, some, List, [], if◌then◌else◌, length}
use baston.Prelude.Map.{lookup, insert, remove}

abbrev pub game_player_cap : ℕ
game_player_cap = 128

abbrev pub reserved_local_slot : ℕ
reserved_local_slot = 31

pub record SlotAllocator : Type 0 where
  pub slots : List (ℕ × ℕ)
  pub by_net : List (ℕ × ℕ)

unfoldable pub new : SlotAllocator
new = record { slots = []; by_net = [] }

unfoldable pub slot_of : SlotAllocator → ℕ → Option ℕ
slot_of s net_id = lookup net_id s.by_net

-- The loop of `assign` from `slot` on, with `n` slots left: the first vacant one that is not the
-- reserved one.
unfoldable pub first_vacant : List (ℕ × ℕ) → ℕ → ℕ → Option ℕ
first_vacant slots zero slot = none
first_vacant slots (suc n) slot =
    let rest = first_vacant slots n (slot + 1) in
    if slot == reserved_local_slot
    then rest
    else elim (lookup slot slots) [ none ↦ some slot | some _ ↦ rest ]

unfoldable pub assign : SlotAllocator → ℕ → SlotAllocator × Option ℕ
assign s net_id = elim (lookup net_id s.by_net) [
  | some existing ↦ (s, some existing)
  | none ↦ elim (first_vacant s.slots game_player_cap 0) [
    | none ↦ (s, none)
    | some slot ↦ (
      record { slots = insert slot net_id s.slots; by_net = insert net_id slot s.by_net },
      some slot,
    )
  ]
]

unfoldable pub release : SlotAllocator → ℕ → SlotAllocator × Option ℕ
release s net_id = elim (lookup net_id s.by_net) [
  | none ↦ (s, none)
  | some slot ↦ (record { slots = remove slot s.slots; by_net = remove net_id s.by_net }, some slot)
]
