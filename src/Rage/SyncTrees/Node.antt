-- ===== src/Rage/SyncTrees/Node.antt =====
-- The nodes of a flattened sync tree, `FlatNode` in crates/baston-protocol/src/rage/sync_trees.rs.
-- A name is the list of its character codes.
use Prim.Native.String.{String}
use baston.Udp.{codes}
use baston.Prelude.{ℕ, Bool, true, false, ◌&&◌, List, [], ◌∷◌, ◌==◌}

abbrev pub Name : Type 0
Name = List ℕ

pub data NodeKind : Type 0 where
  parent : NodeKind
  data_node : (name : Name) → (max_bytes : ℕ) → NodeKind

pub record FlatNode : Type 0 where
  pub depth : ℕ
  pub ids : ℕ × ℕ × ℕ
  pub kind : NodeKind

abbrev pub p : ℕ → ℕ × ℕ × ℕ → FlatNode
p depth ids = record { depth = depth; ids = ids; kind = parent }

abbrev pub d : ℕ → ℕ × ℕ × ℕ → String → ℕ → FlatNode
d depth ids name max_bytes = record {
  depth = depth;
  ids = ids;
  kind = data_node (codes name) max_bytes;
}

-- Equality of strings.
unfoldable pub same_name : Name → Name → Bool
same_name [] [] = true
same_name [] (b ∷ bs) = false
same_name (a ∷ as') [] = false
same_name (a ∷ as') (b ∷ bs) = (a == b) && same_name as' bs
