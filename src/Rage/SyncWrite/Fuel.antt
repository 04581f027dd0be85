-- ===== src/Rage/SyncWrite/Fuel.antt =====
-- The recursion over a sync tree that is written needs no more than two steps for each node.
use mathlib.Core.Path.{fun_ext}
use baston.Prelude.{
  refl, ℕ, zero, suc, ◌+◌, ◌*◌, ◌≤◌, ◌≡◌, arith, Bool, true, false, List, [], ◌∷◌, length, ltb, ◌∙◌,
  ap,
}
use baston.Rage.Buffer.{MessageBuffer, write_bit}
use baston.Rage.SyncTrees.Node.{NodeKind, parent, data_node, FlatNode}
use baston.Rage.SyncWrite.{
  AuthoredNodes, Outcome, skip_subtree, gates_open, conditional, is_present, write_present,
  write_gated, write_next, write_while, write_kind, write_node, write_children, write_all,
}

pub length-skip_subtree :
    (depth : ℕ) (rest : List FlatNode) → length (skip_subtree depth rest) ≤ length rest
unfolding skip_subtree
length-skip_subtree depth [] = omega arith
length-skip_subtree depth (child ∷ rest) = ground (arith, length-skip_subtree depth rest)

-- A step that leaves no more than `n` nodes behind the cursor when it succeeds.
abbrev Shrinks : ℕ → Outcome → Type 0
Shrinks n w = w.2 ≡ true → length w.0 ≤ n

present-Shrinks :
    (w : MessageBuffer × Bool) (present : Bool) (depth : ℕ) (rest : List FlatNode)
    (body : MessageBuffer → Outcome)
    → ((b : MessageBuffer) → Shrinks (length rest) (body b))
    → Shrinks (length rest) (write_present w present depth rest body)
unfolding write_present
present-Shrinks (b, false) present depth rest body h ok = omega arith
present-Shrinks (b, true) false depth rest body h ok = length-skip_subtree depth rest
present-Shrinks (b, true) true depth rest body h ok = h b ok

gated-Shrinks :
    (gates has_bit present : Bool) (depth : ℕ) (rest : List FlatNode)
    (body : MessageBuffer → Outcome) (b : MessageBuffer)
    → ((b : MessageBuffer) → Shrinks (length rest) (body b))
    → Shrinks (length rest) (write_gated gates has_bit present depth rest body b)
unfolding write_gated
gated-Shrinks false has_bit present depth rest body b h ok = length-skip_subtree depth rest
gated-Shrinks true false present depth rest body b h ok = h b ok
gated-Shrinks true true present depth rest body b h ok =
    present-Shrinks (write_bit b present) present depth rest body h ok

next-Shrinks :
    (n k : ℕ) (w : Outcome) (next : List FlatNode → MessageBuffer → Outcome)
    → Shrinks k w
    → k ≤ n
    → ((rest : List FlatNode) (b : MessageBuffer) → Shrinks (length rest) (next rest b))
    → Shrinks n (write_next w next)
unfolding write_next
next-Shrinks n k (rest, b, true) next h le more ok = omega (arith, h refl, more rest b ok)
next-Shrinks n k (rest, b, false) next h le more ok = absurd (ground arith)

while-Shrinks :
    (more : Bool) (rest : List FlatNode) (step : MessageBuffer → Outcome) (b : MessageBuffer)
    → Shrinks (length rest) (step b)
    → Shrinks (length rest) (write_while more rest step b)
unfolding write_while
while-Shrinks true rest step b h ok = h ok
while-Shrinks false rest step b h ok = omega arith

write_next-same :
    (w : Outcome) (f g : List FlatNode → MessageBuffer → Outcome)
    → (w.2 ≡ true → f w.0 w.1 ≡ g w.0 w.1)
    → write_next w f ≡ write_next w g
unfolding write_next
write_next-same (rest, b, true) f g h = h refl
write_next-same (rest, b, false) f g h = refl

module _ (sync_type obj_type : ℕ) (nodes : AuthoredNodes) where
  kind-Shrinks :
      (kind : NodeKind) (rest : List FlatNode) (children : MessageBuffer → Outcome)
      (b : MessageBuffer)
      → Shrinks (length rest) (children b)
      → Shrinks (length rest) (write_kind nodes kind rest children b)
  unfolding write_kind
  kind-Shrinks parent rest children b h ok = h ok
  kind-Shrinks (data_node name _) rest children b h ok = omega arith

  node_step :
      (n : ℕ)
      → ((depth : ℕ) (rest : List FlatNode) (b : MessageBuffer)
          → Shrinks (length rest) (write_children sync_type obj_type nodes false n depth rest b))
      → (node : FlatNode) (rest : List FlatNode) (b : MessageBuffer)
      → Shrinks (length rest) (write_node sync_type obj_type nodes false (suc n) (node ∷ rest) b)
  unfolding write_node
  node_step n children node rest b =
      gated-Shrinks _ _ _ node.depth rest _ b
        (λ b. kind-Shrinks node.kind rest _ b (children node.depth rest b))

  children_step :
      (n : ℕ)
      → ((node : FlatNode) (rest : List FlatNode) (b : MessageBuffer)
          → Shrinks (length rest) (write_node sync_type obj_type nodes false n (node ∷ rest) b))
      → ((depth : ℕ) (rest : List FlatNode) (b : MessageBuffer)
          → Shrinks (length rest) (write_children sync_type obj_type nodes false n depth rest b))
      → (depth : ℕ) (rest : List FlatNode) (b : MessageBuffer)
      → Shrinks (length rest) (write_children sync_type obj_type nodes false (suc n) depth rest b)
  unfolding write_children
  children_step n node children depth [] b = λ ok. omega arith
  children_step n node children depth (child ∷ rest) b =
      while-Shrinks (ltb depth child.depth) (child ∷ rest) _ b (
        next-Shrinks (length (child ∷ rest)) (length rest)
          (write_node sync_type obj_type nodes false n (child ∷ rest) b)
          (write_children sync_type obj_type nodes false n depth) (node child rest b) (omega arith)
          (children depth))

  write-Shrinks :
      (n : ℕ)
      → ((node : FlatNode) (rest : List FlatNode) (b : MessageBuffer)
          → Shrinks (length rest) (write_node sync_type obj_type nodes false n (node ∷ rest) b))
        × ((depth : ℕ) (rest : List FlatNode) (b : MessageBuffer)
            → Shrinks (length rest) (write_children sync_type obj_type nodes false n depth rest b))
  unfolding write_node write_children
  write-Shrinks zero =
      (λ node rest b ok. absurd (ground arith), λ depth rest b ok. absurd (ground arith))
  write-Shrinks (suc n) =
      (node_step n (write-Shrinks n).1, children_step n (write-Shrinks n).0 (write-Shrinks n).1)

  -- With enough fuel, neither the fuel nor the answer for none of it matters.
  module _ (spent : Bool) where
    abbrev NodeSame : ℕ → ℕ → Type 0
    NodeSame n m =
        (node : FlatNode) (rest : List FlatNode) (b : MessageBuffer)
        → length rest * 2 + 2 ≤ n
        → length rest * 2 + 2 ≤ m
        → write_node sync_type obj_type nodes spent n (node ∷ rest) b
          ≡ write_node sync_type obj_type nodes false m (node ∷ rest) b

    abbrev ChildrenSame : ℕ → ℕ → Type 0
    ChildrenSame n m =
        (depth : ℕ) (rest : List FlatNode) (b : MessageBuffer)
        → length rest * 2 + 1 ≤ n
        → length rest * 2 + 1 ≤ m
        → write_children sync_type obj_type nodes spent n depth rest b
          ≡ write_children sync_type obj_type nodes false m depth rest b

    node-same : (n m : ℕ) → ChildrenSame n m → NodeSame (suc n) (suc m)
    unfolding write_node
    node-same n m children node rest b le le' =
        ap
          (λ f.
            write_gated (gates_open sync_type obj_type node.ids)
              (conditional sync_type obj_type node.ids)
              (is_present sync_type obj_type nodes node rest) node.depth rest
              (write_kind nodes node.kind rest f) b)
          (fun_ext (λ b. children node.depth rest b (omega arith) (omega arith)))

    children-same : (n m : ℕ) → NodeSame n m → ChildrenSame n m → ChildrenSame (suc n) (suc m)
    unfolding write_children
    children-same n m node children depth [] b le le' = refl
    children-same n m node children depth (child ∷ rest) b le le' =
        ap (λ f. write_while (ltb depth child.depth) (child ∷ rest) f b)
          (fun_ext (λ b.
            ap (λ w. write_next w (write_children sync_type obj_type nodes spent n depth))
              (node child rest b (omega arith) (omega arith))
            ∙ write_next-same (write_node sync_type obj_type nodes false m (child ∷ rest) b) _ _
                (λ ok.
                  let fewer = (write-Shrinks m).0 child rest b ok in
                  children depth _ _ (omega (arith, fewer)) (omega (arith, fewer)))))

    both_same : (n m : ℕ) → NodeSame n m × ChildrenSame n m
    both_same zero m =
        (λ node rest b le le'. absurd (omega arith), λ depth rest b le le'. absurd (omega arith))
    both_same (suc n) zero =
        (λ node rest b le le'. absurd (omega arith), λ depth rest b le le'. absurd (omega arith))
    both_same (suc n) (suc m) =
        let (node, children) = both_same n m in
        (node-same n m children, children-same n m node children)

    pub all_same :
        (n m : ℕ) (tree : List FlatNode) (b : MessageBuffer)
        → length tree * 2 + 1 ≤ n
        → length tree * 2 + 1 ≤ m
        → write_all sync_type obj_type nodes spent n tree b
          ≡ write_all sync_type obj_type nodes false m tree b
    unfolding write_all
    all_same zero m tree b le le' = absurd (omega arith)
    all_same (suc n) zero tree b le le' = absurd (omega arith)
    all_same (suc n) (suc m) [] b le le' = refl
    all_same (suc n) (suc m) (node ∷ rest) b le le' =
        ap (λ w. write_next w (write_all sync_type obj_type nodes spent n))
          ((both_same n m).0 node rest b (omega arith) (omega arith))
        ∙ write_next-same (write_node sync_type obj_type nodes false m (node ∷ rest) b) _ _ (λ ok.
          let fewer = (write-Shrinks m).0 node rest b ok in
          all_same n m _ _ (omega (arith, fewer)) (omega (arith, fewer)))
