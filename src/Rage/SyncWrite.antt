-- ===== src/Rage/SyncWrite.antt =====
-- Authoring sync trees, crates/baston-protocol/src/rage/sync_write.rs. The cursor into the table is
-- the list of the nodes behind it. The recursion takes fuel, two for each node of the table.
pub mod Fuel
use baston.Prelude.{
  ℕ, zero, suc, ◌+◌, ◌*◌, bit_and, Bool, true, false, ◌&&◌, ◌||◌, not, Option, none, some, List, [],
  ◌∷◌, ◌++◌, ltb, leb, ◌==◌, if◌then◌else◌, length, take,
}
use baston.Rage.Buffer.{MessageBuffer, new, with_length_hack, write_bit, write_bits, data_length}
use baston.Rage.Buffer.Monad.{Writer, ◌>>◌}
use baston.Rage.Buffer.Fields.{put}
use baston.Rage.Clone.{NetObjEntityType}
use baston.Rage.SyncTrees.Node.{Name, NodeKind, parent, data_node, FlatNode, same_name}
use baston.Rage.SyncTrees.{tree_for}

abbrev pub node_length_bits : ℕ
node_length_bits = 13

abbrev pub node_scratch_bytes : ℕ
node_scratch_bytes = 1024

abbrev pub tree_scratch_bytes : ℕ
tree_scratch_bytes = 4096

-- `(node name, payload bytes, payload bit length)`
pub record AuthoredNode : Type 0 where
  pub name : Name
  pub bytes : List ℕ
  pub bits : ℕ

abbrev pub AuthoredNodes : Type 0
AuthoredNodes = List AuthoredNode

unfoldable pub set_node : Name → (MessageBuffer → MessageBuffer) → AuthoredNodes → AuthoredNodes
set_node name write nodes =
    let scratch = write (new node_scratch_bytes) in
    nodes ++ (record { name = name; bytes = scratch.bytes; bits = scratch.cur_bit } ∷ [])

unfoldable pub payload : Name → AuthoredNodes → Option (List ℕ × ℕ)
payload name [] = none
payload name (a ∷ nodes) =
    let rest = payload name nodes in if same_name a.name name then some (a.bytes, a.bits) else rest

unfoldable pub contains : Name → AuthoredNodes → Bool
contains name [] = false
contains name (a ∷ nodes) = same_name a.name name || contains name nodes

unfoldable pub skip_subtree : ℕ → List FlatNode → List FlatNode
skip_subtree depth [] = []
skip_subtree depth (child ∷ rest) =
    let behind = skip_subtree depth rest in if ltb depth child.depth then behind else child ∷ rest

-- What a walk leaves: the nodes behind the cursor, the buffer, and whether it succeeded.
abbrev pub Outcome : Type 0
Outcome = List FlatNode × MessageBuffer × Bool

unfoldable pub is_authored : AuthoredNodes → NodeKind → Bool
is_authored nodes parent = false
is_authored nodes (data_node name _) = contains name nodes

unfoldable pub put_payload : Option (List ℕ × ℕ) → Writer
put_payload none = put 0 node_length_bits
put_payload (some (bytes, bits)) = put bits node_length_bits >> λ b. write_bits b bytes bits

-- What follows on an open gate: the presence bit, if the node has one, and the node itself.
unfoldable pub write_present :
    MessageBuffer × Bool → Bool → ℕ → List FlatNode → (MessageBuffer → Outcome) → Outcome
write_present (b, false) present depth rest body = (rest, b, false)
write_present (b, true) false depth rest body = (skip_subtree depth rest, b, true)
write_present (b, true) true depth rest body = body b

unfoldable pub write_gated :
    Bool → Bool → Bool → ℕ → List FlatNode → (MessageBuffer → Outcome) → MessageBuffer → Outcome
write_gated false has_bit present depth rest body b = (skip_subtree depth rest, b, true)
write_gated true false present depth rest body b = body b
write_gated true true present depth rest body b =
    write_present (write_bit b present) present depth rest body

-- `while … { if !write_node(…) { return false; } }`
unfoldable pub write_next : Outcome → (List FlatNode → MessageBuffer → Outcome) → Outcome
write_next (rest, b, true) next = next rest b
write_next (rest, b, false) next = (rest, b, false)

-- `while tree.get(*cursor).is_some_and(|child| child.depth > depth)`
unfoldable pub write_while :
    Bool → List FlatNode → (MessageBuffer → Outcome) → MessageBuffer → Outcome
write_while false rest step b = (rest, b, true)
write_while true rest step b = step b

unfoldable pub write_kind :
    AuthoredNodes → NodeKind → List FlatNode → (MessageBuffer → Outcome) → MessageBuffer → Outcome
write_kind nodes parent rest children b = children b
write_kind nodes (data_node name _) rest children b =
    let w = put_payload (payload name nodes) b in (rest, w.0, w.1)

module _ (sync_type obj_type : ℕ) where
  -- The gates that take no bits.
  unfoldable pub gates_open : ℕ × ℕ × ℕ → Bool
  gates_open ids =
      not ((bit_and ids.0 sync_type == 0) || (not (ids.2 == 0) && (bit_and obj_type ids.2 == 0)))

  -- The node has a presence bit.
  unfoldable pub conditional : ℕ × ℕ × ℕ → Bool
  conditional ids = not (bit_and ids.1 sync_type == 0)

  unfoldable pub subtree_has_payload : AuthoredNodes → ℕ → List FlatNode → Bool
  subtree_has_payload nodes depth [] = false
  subtree_has_payload nodes depth (node ∷ rest) =
      let found = subtree_has_payload nodes depth rest in
      if leb node.depth depth
      then false
      else (gates_open node.ids && is_authored nodes node.kind) || found

  unfoldable pub is_present : AuthoredNodes → FlatNode → List FlatNode → Bool
  is_present nodes node rest = elim node.kind [
    | parent ↦ subtree_has_payload nodes node.depth rest
    | data_node name _ ↦ contains name nodes
  ]

  -- `spent` is the answer of a recursion whose fuel is used up; the source's has none.
  module _ (nodes : AuthoredNodes) (spent : Bool) where
    unfoldable mutual
      -- One node and, for parents, its subtree.
      pub write_node : ℕ → List FlatNode → MessageBuffer → Outcome
      write_node zero rest b = (rest, b, spent)
      write_node (suc n) [] b = ([], b, true)
      write_node (suc n) (node ∷ rest) b =
          write_gated (gates_open node.ids) (conditional node.ids) (is_present nodes node rest)
            node.depth rest (write_kind nodes node.kind rest (write_children n node.depth rest)) b

      -- The loop over the children of a node.
      pub write_children : ℕ → ℕ → List FlatNode → MessageBuffer → Outcome
      write_children zero depth rest b = (rest, b, spent)
      write_children (suc n) depth [] b = ([], b, true)
      write_children (suc n) depth (child ∷ rest) b =
          write_while (ltb depth child.depth) (child ∷ rest)
            (λ b. write_next (write_node n (child ∷ rest) b) (write_children n depth)) b

    -- The loop over the whole table.
    unfoldable pub write_all : ℕ → List FlatNode → MessageBuffer → Outcome
    write_all zero rest b = (rest, b, spent)
    write_all (suc n) [] b = ([], b, true)
    write_all (suc n) (node ∷ rest) b = write_next (write_node n (node ∷ rest) b) (write_all n)

abbrev pub fuel : List FlatNode → ℕ
fuel tree = length tree * 2 + 2

unfoldable pub write_tree : List FlatNode → Bool → Bool → AuthoredNodes → Option (List ℕ)
write_tree tree is_create length_hack nodes =
    let buf = with_length_hack (new tree_scratch_bytes) length_hack in
    let w =
      if is_create
      then write_all 1 0 nodes false (suc (fuel tree)) tree buf
      else write_all 2 1 nodes false (suc (fuel tree)) tree (write_bit buf true).0 in
    if w.2 then some (take (data_length w.1) w.1.bytes) else none

unfoldable pub write_sync_tree : NetObjEntityType → Bool → Bool → AuthoredNodes → Option (List ℕ)
write_sync_tree entity_type = write_tree (tree_for entity_type)
