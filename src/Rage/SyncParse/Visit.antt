-- ===== src/Rage/SyncParse/Visit.antt =====
-- The leaves that a written sync tree has, in order: the terms in which the walk is specified. No
-- bits are left here, only which nodes of the table are reached.
use baston.Prelude.{ℕ, zero, suc, Bool, true, false, List, [], ◌∷◌, ◌++◌, ltb, ◌≡◌, refl}
use baston.Rage.Buffer.{MessageBuffer}
use baston.Rage.SyncTrees.Node.{Name, NodeKind, parent, data_node, FlatNode}
use baston.Rage.SyncWrite.{
  AuthoredNodes, payload, skip_subtree, gates_open, conditional, is_present,
}
use baston.Rage.SyncParse.Leaves.{Leaf, leaf_of, decode_one}

-- The nodes behind the cursor, and the leaves.
abbrev pub Visited : Type 0
Visited = List FlatNode × List Leaf

abbrev pub visit_gated : Bool → Bool → Bool → ℕ → List FlatNode → Visited → Visited
visit_gated false has_bit present depth rest body = (skip_subtree depth rest, [])
visit_gated true false present depth rest body = body
visit_gated true true false depth rest body = (skip_subtree depth rest, [])
visit_gated true true true depth rest body = body

abbrev pub visit_kind : AuthoredNodes → NodeKind → List FlatNode → Visited → Visited
visit_kind nodes parent rest children = children
visit_kind nodes (data_node name _) rest children = (rest, leaf_of name (payload name nodes) ∷ [])

abbrev pub visit_next : Visited → (List FlatNode → Visited) → Visited
visit_next (rest, leaves) next = let v = next rest in (v.0, leaves ++ v.1)

abbrev pub visit_while : Bool → List FlatNode → Visited → Visited
visit_while false rest step = (rest, [])
visit_while true rest step = step

module _ (sync_type obj_type : ℕ) (nodes : AuthoredNodes) where
  unfoldable mutual
    pub visit : ℕ → List FlatNode → Visited
    visit zero rest = (rest, [])
    visit (suc n) [] = ([], [])
    visit (suc n) (node ∷ rest) =
        visit_gated (gates_open sync_type obj_type node.ids)
          (conditional sync_type obj_type node.ids) (is_present sync_type obj_type nodes node rest)
          node.depth rest (visit_kind nodes node.kind rest (visit_children n node.depth rest))

    pub visit_children : ℕ → ℕ → List FlatNode → Visited
    visit_children zero depth rest = (rest, [])
    visit_children (suc n) depth [] = ([], [])
    visit_children (suc n) depth (child ∷ rest) =
        visit_while (ltb depth child.depth) (child ∷ rest)
          (visit_next (visit n (child ∷ rest)) (visit_children n depth))

-- No leaf of the table has a subtree.
abbrev pub IsTree : List FlatNode → Type 0
IsTree [] = Unit
IsTree (node ∷ rest) =
    ((name : Name) (max_bytes : ℕ)
      → node.kind ≡ data_node name max_bytes
      → skip_subtree node.depth rest ≡ rest)
    × IsTree rest

module _ {Out : Type 0} (decodes : Name → Bool)
    (decode_leaf : Name → MessageBuffer → Out → Out) where
  unfoldable pub decode_all : List Leaf → Out → Out
  decode_all [] out = out
  decode_all (leaf ∷ leaves) out = decode_all leaves (decode_one decodes decode_leaf leaf out)

  pub decode_all-append :
      (xs ys : List Leaf) (out : Out)
      → decode_all (xs ++ ys) out ≡ decode_all ys (decode_all xs out)
  unfolding decode_all
  decode_all-append [] ys out = refl
  decode_all-append (x ∷ xs) ys out = decode_all-append xs ys (decode_one decodes decode_leaf x out)
