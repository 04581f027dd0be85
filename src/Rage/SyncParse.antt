-- ===== src/Rage/SyncParse.antt =====
-- The walk over a sync tree, `parse_sync_tree` in crates/baston-protocol/src/rage/sync_parse.rs. The
-- decoders of the single nodes read floats, so that they are arguments: which names are decoded, and
-- what a node's payload does to the result.
pub mod Pieces
pub mod Leaves
pub mod Visit
pub mod Gates
pub mod RoundTrip
pub mod Authored
pub mod Fuel
use baston.Prelude.{
  ℕ, zero, suc, ◌+◌, ◌*◌, ◌/◌, bit_and, Bool, true, false, ◌&&◌, not, none, some, List, [], ◌∷◌,
  ltb, ◌==◌, if◌then◌else◌, length, replicate, Option,
}
use baston.Rage.Buffer.{
  MessageBuffer, from_bytes, from_bits, with_length_hack, read_bit, read_bits, read_bits_single,
  set_current_bit,
}
use baston.Rage.Clone.{NetObjEntityType}
use baston.Rage.SyncTrees.Node.{Name, parent, data_node, FlatNode, NodeKind}
use baston.Rage.SyncTrees.{tree_for}
use baston.Rage.SyncWrite.{skip_subtree, node_length_bits, fuel}

module _ (sync_type obj_type : ℕ) where
  unfoldable pub should_read : ℕ × ℕ × ℕ → MessageBuffer → MessageBuffer × Bool
  should_read ids b =
      if bit_and ids.0 sync_type == 0
      then (b, false)
      else if not (ids.2 == 0) && (bit_and obj_type ids.2 == 0)
      then (b, false)
      else if not (bit_and ids.1 sync_type == 0)
      then (let r = read_bit b in (r.0, not (r.1 == 0)))
      else (b, true)

module _ {Out : Type 0} (decodes : Name → Bool)
    (decode_leaf : Name → MessageBuffer → Out → Out) where
  abbrev pub Outcome : Type 0
  Outcome = List FlatNode × MessageBuffer × Out × Bool

  -- `decode_leaf` on a view bounded to the declared length.
  unfoldable pub decode_body : Name → ℕ → MessageBuffer → Out → MessageBuffer × Out
  decode_body name length b out =
      if decodes name
      then (let r = read_bits b (replicate ((length + 7) / 8) 0) length in
          (r.0, if r.1.1 then decode_leaf name (from_bits r.1.0 length) out else out))
      else (b, out)

  -- A leaf behind the read of its length.
  unfoldable pub walk_sized : Name → List FlatNode → MessageBuffer × Option ℕ → Out → Outcome
  walk_sized name rest (b, none) out = (rest, b, out, false)
  walk_sized name rest (b, some size) out =
      let end = b.cur_bit + size in
      if ltb (length b.bytes * 8) end
      then (rest, b, out, false)
      else (let decoded = decode_body name size b out in
          (rest, set_current_bit decoded.0 end, decoded.1, true))

  unfoldable pub walk_leaf : Name → List FlatNode → MessageBuffer → Out → Outcome
  walk_leaf name rest b out = walk_sized name rest (read_bits_single b node_length_bits) out

  unfoldable pub walk_kind :
      NodeKind
      → ℕ
      → List FlatNode
      → (MessageBuffer → Out → Outcome)
      → MessageBuffer × Bool
      → Out
      → Outcome
  walk_kind parent depth rest children (b, true) out = children b out
  walk_kind parent depth rest children (b, false) out = (skip_subtree depth rest, b, out, true)
  walk_kind (data_node name _) depth rest children (b, true) out = walk_leaf name rest b out
  walk_kind (data_node name _) depth rest children (b, false) out = (rest, b, out, true)

  -- `while ctx.tree.get(*cursor).is_some_and(|child| child.depth > depth)`
  unfoldable pub walk_while :
      Bool → List FlatNode → (MessageBuffer → Out → Outcome) → MessageBuffer → Out → Outcome
  walk_while false rest step b out = (rest, b, out, true)
  walk_while true rest step b out = step b out

  -- `while … { if !walk(…) { return false; } }`
  unfoldable pub walk_next : Outcome → (List FlatNode → MessageBuffer → Out → Outcome) → Outcome
  walk_next (rest, b, out, true) next = next rest b out
  walk_next (rest, b, out, false) next = (rest, b, out, false)

  -- `spent` is the answer of a recursion whose fuel is used up; the source's has none.
  module _ (sync_type obj_type : ℕ) (spent : Bool) where
    unfoldable mutual
      pub walk : ℕ → List FlatNode → MessageBuffer → Out → Outcome
      walk zero rest b out = (rest, b, out, spent)
      walk (suc n) [] b out = ([], b, out, false)
      walk (suc n) (node ∷ rest) b out =
          walk_kind node.kind node.depth rest (walk_children n node.depth rest)
            (should_read sync_type obj_type node.ids b) out

      pub walk_children : ℕ → ℕ → List FlatNode → MessageBuffer → Out → Outcome
      walk_children zero depth rest b out = (rest, b, out, spent)
      walk_children (suc n) depth [] b out = ([], b, out, true)
      walk_children (suc n) depth (child ∷ rest) b out =
          walk_while (ltb depth child.depth) (child ∷ rest)
            (λ b out. walk_next (walk n (child ∷ rest) b out) (walk_children n depth)) b out

  unfoldable pub parse_tree : List FlatNode → Bool → List ℕ → Bool → Out → Out
  parse_tree tree is_create bytes length_hack out =
      let b = with_length_hack (from_bytes bytes) length_hack in
      if is_create
      then (walk 1 0 false (fuel tree) tree b out).2
      else (let r = read_bit b in (walk 2 r.1 false (fuel tree) tree r.0 out).2)

  unfoldable pub parse_sync_tree : NetObjEntityType → Bool → List ℕ → Bool → Out → Out
  parse_sync_tree entity_type = parse_tree (tree_for entity_type)
