-- ===== src/Rage/SyncParse/Fuel.antt =====
-- The recursion over a sync tree that is read needs no more than two steps for each node either.
use mathlib.Core.Path.{fun_ext}
use baston.Prelude.{
  refl, ℕ, zero, suc, ◌+◌, ◌*◌, ◌≤◌, ◌≡◌, arith, Bool, true, false, Option, none, some, List, [],
  ◌∷◌, length, ltb, Bool-cases, inl, inr, ◌∙◌, ap,
}
use baston.Rage.Buffer.{MessageBuffer, read_bits_single}
use baston.Rage.SyncTrees.Node.{Name, NodeKind, parent, data_node, FlatNode}
use baston.Rage.SyncWrite.{AuthoredNodes, fuel, write_all, node_length_bits}
use baston.Rage.SyncWrite.Fuel.{length-skip_subtree, all_same as write_all_same}
use baston.Rage.SyncParse.{
  Outcome, should_read, walk_sized, walk_leaf, walk_kind, walk_while, walk_next, walk,
  walk_children,
}

module _ {Out : Type 0} (decodes : Name → Bool)
    (decode_leaf : Name → MessageBuffer → Out → Out) where
  -- A step that leaves no more than `n` nodes behind the cursor when it succeeds.
  abbrev Shrinks : ℕ → Outcome decodes decode_leaf → Type 0
  Shrinks n w = w.3 ≡ true → length w.0 ≤ n

  sized-Shrinks :
      (name : Name) (rest : List FlatNode) (size : MessageBuffer × Option ℕ) (out : Out)
      → Shrinks (length rest) (walk_sized decodes decode_leaf name rest size out)
  unfolding walk_sized
  sized-Shrinks name rest (b, none) out ok = omega arith
  sized-Shrinks name rest (b, some size) out ok =
      elim (Bool-cases (ltb (length b.bytes * 8) (b.cur_bit + size))) [
        | inl e ↦ rw e (omega arith)
        | inr e ↦ rw e (omega arith)
      ]

  kind-Shrinks :
      (kind : NodeKind) (depth : ℕ) (rest : List FlatNode)
      (children : MessageBuffer → Out → Outcome decodes decode_leaf) (r : MessageBuffer × Bool)
      (out : Out)
      → ((b : MessageBuffer) → Shrinks (length rest) (children b out))
      → Shrinks (length rest) (walk_kind decodes decode_leaf kind depth rest children r out)
  unfolding walk_kind walk_leaf
  kind-Shrinks parent depth rest children (b, true) out h ok = h b ok
  kind-Shrinks parent depth rest children (b, false) out h ok = length-skip_subtree depth rest
  kind-Shrinks (data_node name _) depth rest children (b, true) out h ok =
      sized-Shrinks name rest (read_bits_single b node_length_bits) out ok
  kind-Shrinks (data_node name _) depth rest children (b, false) out h ok = omega arith

  next-Shrinks :
      (n k : ℕ) (w : Outcome decodes decode_leaf)
      (next : List FlatNode → MessageBuffer → Out → Outcome decodes decode_leaf)
      → Shrinks k w
      → k ≤ n
      → ((rest : List FlatNode) (b : MessageBuffer) (out : Out)
          → Shrinks (length rest) (next rest b out))
      → Shrinks n (walk_next decodes decode_leaf w next)
  unfolding walk_next
  next-Shrinks n k (rest, b, out, true) next h le more ok =
      omega (arith, h refl, more rest b out ok)
  next-Shrinks n k (rest, b, out, false) next h le more ok = absurd (ground arith)

  while-Shrinks :
      (more : Bool) (rest : List FlatNode)
      (step : MessageBuffer → Out → Outcome decodes decode_leaf) (b : MessageBuffer) (out : Out)
      → Shrinks (length rest) (step b out)
      → Shrinks (length rest) (walk_while decodes decode_leaf more rest step b out)
  unfolding walk_while
  while-Shrinks true rest step b out h ok = h ok
  while-Shrinks false rest step b out h ok = omega arith

  walk_next-same :
      (w : Outcome decodes decode_leaf)
      (f g : List FlatNode → MessageBuffer → Out → Outcome decodes decode_leaf)
      → (w.3 ≡ true → f w.0 w.1 w.2 ≡ g w.0 w.1 w.2)
      → walk_next decodes decode_leaf w f ≡ walk_next decodes decode_leaf w g
  unfolding walk_next
  walk_next-same (rest, b, out, true) f g h = h refl
  walk_next-same (rest, b, out, false) f g h = refl

  module _ (sync_type obj_type : ℕ) where
    abbrev NodeShrinks : ℕ → Type 0
    NodeShrinks n =
        (node : FlatNode) (rest : List FlatNode) (b : MessageBuffer) (out : Out)
        → Shrinks (length rest)
            (walk decodes decode_leaf sync_type obj_type false n (node ∷ rest) b out)

    abbrev ChildrenShrinks : ℕ → Type 0
    ChildrenShrinks n =
        (depth : ℕ) (rest : List FlatNode) (b : MessageBuffer) (out : Out)
        → Shrinks (length rest)
            (walk_children decodes decode_leaf sync_type obj_type false n depth rest b out)

    node_step : (n : ℕ) → ChildrenShrinks n → NodeShrinks (suc n)
    unfolding walk
    node_step n children node rest b out =
        kind-Shrinks node.kind node.depth rest
          (walk_children decodes decode_leaf sync_type obj_type false n node.depth rest)
          (should_read sync_type obj_type node.ids b) out (λ b. children node.depth rest b out)

    children_step : (n : ℕ) → NodeShrinks n → ChildrenShrinks n → ChildrenShrinks (suc n)
    unfolding walk_children
    children_step n node children depth [] b out = λ ok. omega arith
    children_step n node children depth (child ∷ rest) b out =
        while-Shrinks (ltb depth child.depth) (child ∷ rest) _ b out (
          next-Shrinks (length (child ∷ rest)) (length rest)
            (walk decodes decode_leaf sync_type obj_type false n (child ∷ rest) b out)
            (walk_children decodes decode_leaf sync_type obj_type false n depth)
            (node child rest b out) (omega arith) (children depth))

    walk-Shrinks : (n : ℕ) → NodeShrinks n × ChildrenShrinks n
    unfolding walk walk_children
    walk-Shrinks zero =
        (λ node rest b out ok. absurd (ground arith), λ depth rest b out ok. absurd (ground arith))
    walk-Shrinks (suc n) =
        let (node, children) = walk-Shrinks n in
        (node_step n children, children_step n node children)

    -- With enough fuel, neither the fuel nor the answer for none of it matters.
    module _ (spent : Bool) where
      abbrev NodeSame : ℕ → ℕ → Type 0
      NodeSame n m =
          (node : FlatNode) (rest : List FlatNode) (b : MessageBuffer) (out : Out)
          → length rest * 2 + 2 ≤ n
          → length rest * 2 + 2 ≤ m
          → walk decodes decode_leaf sync_type obj_type spent n (node ∷ rest) b out
            ≡ walk decodes decode_leaf sync_type obj_type false m (node ∷ rest) b out

      abbrev ChildrenSame : ℕ → ℕ → Type 0
      ChildrenSame n m =
          (depth : ℕ) (rest : List FlatNode) (b : MessageBuffer) (out : Out)
          → length rest * 2 + 1 ≤ n
          → length rest * 2 + 1 ≤ m
          → walk_children decodes decode_leaf sync_type obj_type spent n depth rest b out
            ≡ walk_children decodes decode_leaf sync_type obj_type false m depth rest b out

      node-same : (n m : ℕ) → ChildrenSame n m → NodeSame (suc n) (suc m)
      unfolding walk
      node-same n m children node rest b out le le' =
          ap
            (λ f.
              walk_kind decodes decode_leaf node.kind node.depth rest f
                (should_read sync_type obj_type node.ids b) out)
            (fun_ext
              (λ b. fun_ext (λ out. children node.depth rest b out (omega arith) (omega arith))))

      children-same : (n m : ℕ) → NodeSame n m → ChildrenSame n m → ChildrenSame (suc n) (suc m)
      unfolding walk_children
      children-same n m node children depth [] b out le le' = refl
      children-same n m node children depth (child ∷ rest) b out le le' =
          ap (λ f. walk_while decodes decode_leaf (ltb depth child.depth) (child ∷ rest) f b out)
            (fun_ext (λ b. fun_ext (λ out.
              ap
                (λ w.
                  walk_next decodes decode_leaf w
                    (walk_children decodes decode_leaf sync_type obj_type spent n depth))
                (node child rest b out (omega arith) (omega arith))
              ∙ walk_next-same
                  (walk decodes decode_leaf sync_type obj_type false m (child ∷ rest) b out) _ _
                  (λ ok.
                    let fewer = (walk-Shrinks m).0 child rest b out ok in
                    children depth _ _ _ (omega (arith, fewer)) (omega (arith, fewer))))))

      both_same : (n m : ℕ) → NodeSame n m × ChildrenSame n m
      both_same zero m = (
        λ node rest b out le le'. absurd (omega arith),
        λ depth rest b out le le'. absurd (omega arith),
      )
      both_same (suc n) zero = (
        λ node rest b out le le'. absurd (omega arith),
        λ depth rest b out le le'. absurd (omega arith),
      )
      both_same (suc n) (suc m) =
          let (node, children) = both_same n m in
          (node-same n m children, children-same n m node children)

      walk_same :
          (n m : ℕ) (tree : List FlatNode) (b : MessageBuffer) (out : Out)
          → length tree * 2 + 2 ≤ n
          → length tree * 2 + 2 ≤ m
          → walk decodes decode_leaf sync_type obj_type spent n tree b out
            ≡ walk decodes decode_leaf sync_type obj_type false m tree b out
      unfolding walk
      walk_same zero m tree b out le le' = absurd (omega arith)
      walk_same (suc n) zero tree b out le le' = absurd (omega arith)
      walk_same (suc n) (suc m) [] b out le le' = refl
      walk_same (suc n) (suc m) (node ∷ rest) b out le le' =
          (both_same (suc n) (suc m)).0 node rest b out (omega arith) (omega arith)

-- The recursions over a sync tree end: on any fuel from the writer's own on, which is the larger, the
-- writer leaves the same nodes, buffer and answer, and the reader the same nodes, buffer, result and
-- answer, as each on its own fuel, whatever they would answer if the fuel ran out.
pub fuel_suffices :
    {Out : Type 0} (decodes : Name → Bool) (decode_leaf : Name → MessageBuffer → Out → Out)
    (sync_type obj_type : ℕ) (nodes : AuthoredNodes) (spent : Bool) (n : ℕ) (tree : List FlatNode)
    (b : MessageBuffer) (out : Out)
    → suc (fuel tree) ≤ n
    → (write_all sync_type obj_type nodes spent n tree b
        ≡ write_all sync_type obj_type nodes false (suc (fuel tree)) tree b)
      × (walk decodes decode_leaf sync_type obj_type spent n tree b out
          ≡ walk decodes decode_leaf sync_type obj_type false (fuel tree) tree b out)
fuel_suffices decodes decode_leaf sync_type obj_type nodes spent n tree b out le = (
  write_all_same sync_type obj_type nodes spent n (suc (fuel tree)) tree b (omega arith)
      (omega arith),
  walk_same decodes decode_leaf sync_type obj_type spent n (fuel tree) tree b out (omega arith)
      (omega arith),
)
