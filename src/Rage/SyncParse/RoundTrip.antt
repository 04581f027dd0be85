-- ===== src/Rage/SyncParse/RoundTrip.antt =====
-- The walk over a written sync tree decodes exactly the leaves that were written.
use baston.Prelude.{
  refl, ℕ, zero, suc, ◌+◌, ◌≡◌, arith, Bool, true, false, List, [], ◌∷◌, ltb, sym, ◌∙◌, ap,
}
use baston.Rage.Buffer.{MessageBuffer, set_current_bit}
use baston.Rage.Buffer.Bounds.{IsValid}
use baston.Rage.Buffer.Fields.{Written-trans, width}
use baston.Rage.SyncTrees.Node.{Name, NodeKind, parent, data_node, FlatNode}
use baston.Rage.SyncWrite
use baston.Rage.SyncWrite.{
  AuthoredNodes, payload, put_payload, skip_subtree, gates_open, conditional, is_present,
  write_gated, write_kind, write_next, write_while, write_node, write_children,
}
use baston.Rage.SyncParse
use baston.Rage.SyncParse.{should_read, walk_kind, walk_next, walk_while, walk, walk_children}
use baston.Rage.SyncParse.Pieces.{IsFull, Written-IsFull, Holds-first, Holds-second}
use baston.Rage.SyncParse.Leaves.{IsLeaf, leaf_of, leaf_back}
use baston.Rage.SyncParse.Visit.{
  Visited, visit_kind, visit_next, visit_while, visit, visit_children, IsTree, decode_all,
  decode_all-append,
}
use baston.Rage.SyncParse.Gates.{Back, Back-nothing, gated_cases}

pub write_next-ok :
    (w : SyncWrite.Outcome) (next : List FlatNode → MessageBuffer → SyncWrite.Outcome)
    → (write_next w next).2 ≡ true
    → (w.2 ≡ true) × (write_next w next ≡ next w.0 w.1)
unfolding write_next
write_next-ok (rest, b, true) next h = (refl, refl)
write_next-ok (rest, b, false) next h = absurd (ground arith)

module _ {Out : Type 0} (decodes : Name → Bool) (decode_leaf : Name → MessageBuffer → Out → Out)
    (hack : Bool) where
  abbrev Walker : Type 0
  Walker = MessageBuffer → Out → SyncParse.Outcome decodes decode_leaf

  abbrev BackHere : MessageBuffer → SyncWrite.Outcome → Visited → Walker → Type 0
  BackHere = Back decodes decode_leaf hack

  -- One node behind the other.
  Back-seq :
      (b : MessageBuffer) (w : SyncWrite.Outcome) (v : Visited) (walker : Walker)
      (w' : SyncWrite.Outcome) (next : List FlatNode → Visited) (walk_on : List FlatNode → Walker)
      → BackHere b w v walker
      → BackHere w.1 w' (next v.0) (walk_on v.0)
      → BackHere b w'
          (visit_next v next)
          (λ f out. walk_next decodes decode_leaf (walker f out) walk_on)
  unfolding walk_next set_current_bit
  Back-seq b w v walker w' next walk_on one two = record {
    bits = one.bits + two.bits;
    behind = two.behind;
    tree = two.tree;
    written = Written-trans b w.1 w'.1 one.bits two.bits one.written two.written;
    back = λ f out held.
        let first =
          one.back f out
            (Holds-first hack b w.1 w'.1 one.bits two.bits f one.written two.written held) in
        let second =
          two.back _ (decode_all decodes decode_leaf v.1 out)
            (Holds-second hack b w.1 w'.1 one.bits two.bits f one.written held) in
        let place : w.1.cur_bit + two.bits ≡ b.cur_bit + (one.bits + two.bits) =
          omega (arith, one.written.cursor) in
        rw (first, decode_all-append decodes decode_leaf v.1 (next v.0).1 out) (rw place at second);
  }

  kind_closed :
      (kind : NodeKind) (depth : ℕ) (rest : List FlatNode) (children : Walker) (f : MessageBuffer)
      (out : Out)
      → ((name : Name) (max_bytes : ℕ)
          → kind ≡ data_node name max_bytes
          → skip_subtree depth rest ≡ rest)
      → walk_kind decodes decode_leaf kind depth rest children (f, false) out
        ≡ (skip_subtree depth rest, f, out, true)
  unfolding walk_kind
  kind_closed parent depth rest children f out h = refl
  kind_closed (data_node name max_bytes) depth rest children f out h =
      ap (λ r. (r, f, out, true)) (sym (h name max_bytes refl))

  while_back :
      (more : Bool) (rest : List FlatNode) (b : MessageBuffer)
      (step : MessageBuffer → SyncWrite.Outcome) (inner : Visited) (walker : Walker)
      → IsValid b
      → IsFull b
      → IsTree rest
      → ((step b).2 ≡ true → BackHere b (step b) inner walker)
      → (write_while more rest step b).2 ≡ true
      → BackHere b
          (write_while more rest step b)
          (visit_while more rest inner)
          (walk_while decodes decode_leaf more rest walker)
  unfolding write_while walk_while
  while_back false rest b step inner walker v full tree h ok =
      Back-nothing decodes decode_leaf hack b rest _ v full tree λ f out. refl
  while_back true rest b step inner walker v full tree h ok = h ok

  module _ (sync_type obj_type : ℕ) (nodes : AuthoredNodes)
      (authored : (name : Name) → IsLeaf (leaf_of name (payload name nodes))) where
    kind_back :
        (kind : NodeKind) (depth : ℕ) (rest : List FlatNode) (b : MessageBuffer)
        (children : MessageBuffer → SyncWrite.Outcome) (inner : Visited) (walker : Walker)
        → IsTree rest
        → ((children b).2 ≡ true → BackHere b (children b) inner walker)
        → IsValid b
        → b.length_hack ≡ hack
        → IsFull b
        → (write_kind nodes kind rest children b).2 ≡ true
        → BackHere b
            (write_kind nodes kind rest children b)
            (visit_kind nodes kind rest inner)
            (λ f out. walk_kind decodes decode_leaf kind depth rest walker (f, true) out)
    unfolding write_kind walk_kind
    kind_back parent depth rest b children inner walker tree h v m full ok = h ok
    kind_back (data_node name _) depth rest b children inner walker tree h v m full ok =
        let (written, back) =
          leaf_back decodes decode_leaf hack name (payload name nodes) b (authored name) v m full
            ok in
        record {
          bits = width hack 13 + (leaf_of name (payload name nodes)).bits;
          behind = refl;
          tree = tree;
          written = written;
          back = λ f out held. unfold decode_all in back f rest out held;
        }

    abbrev NodeBack : ℕ → Type 0
    NodeBack n =
        (node : FlatNode) (rest : List FlatNode) (b : MessageBuffer)
        → IsTree (node ∷ rest)
        → IsValid b
        → b.length_hack ≡ hack
        → IsFull b
        → (write_node sync_type obj_type nodes false n (node ∷ rest) b).2 ≡ true
        → BackHere b (write_node sync_type obj_type nodes false n (node ∷ rest) b)
            (visit sync_type obj_type nodes n (node ∷ rest))
            (walk decodes decode_leaf sync_type obj_type false n (node ∷ rest))

    abbrev ChildrenBack : ℕ → Type 0
    ChildrenBack n =
        (depth : ℕ) (rest : List FlatNode) (b : MessageBuffer)
        → IsTree rest
        → IsValid b
        → b.length_hack ≡ hack
        → IsFull b
        → (write_children sync_type obj_type nodes false n depth rest b).2 ≡ true
        → BackHere b (write_children sync_type obj_type nodes false n depth rest b)
            (visit_children sync_type obj_type nodes n depth rest)
            (walk_children decodes decode_leaf sync_type obj_type false n depth rest)

    node_step : (n : ℕ) → ChildrenBack n → NodeBack (suc n)
    unfolding write_node visit walk
    node_step n children node rest b tree v m full ok =
        gated_cases decodes decode_leaf hack sync_type obj_type node.ids node.depth rest tree.1
          (write_kind nodes node.kind rest
            (write_children sync_type obj_type nodes false n node.depth rest))
          (visit_kind nodes node.kind rest
            (visit_children sync_type obj_type nodes n node.depth rest))
          (walk_kind decodes decode_leaf node.kind node.depth rest
            (walk_children decodes decode_leaf sync_type obj_type false n node.depth rest))
          (λ f out. kind_closed node.kind node.depth rest _ f out tree.0)
          (λ b' v' m' full' ok'.
            kind_back node.kind node.depth rest b' _ _ _ tree.1
              (λ inner. children node.depth rest b' tree.1 v' m' full' inner) v' m' full' ok')
          (gates_open sync_type obj_type node.ids) (conditional sync_type obj_type node.ids)
          (is_present sync_type obj_type nodes node rest) b refl refl v m full ok

    children_step : (n : ℕ) → NodeBack n → ChildrenBack n → ChildrenBack (suc n)
    unfolding write_children visit_children walk_children
    children_step n node children depth [] b tree v m full ok =
        Back-nothing decodes decode_leaf hack b [] _ v full tt λ f out. refl
    children_step n node children depth (child ∷ rest) b tree v m full ok =
        let w = write_node sync_type obj_type nodes false n (child ∷ rest) b in
        let u = visit sync_type obj_type nodes n (child ∷ rest) in
        while_back (ltb depth child.depth) (child ∷ rest) b _ _ _ v full tree
          (λ ok'.
            let (done, whole) =
              write_next-ok w (write_children sync_type obj_type nodes false n depth) ok' in
            let one = node child rest b tree v m full done in
            let two =
              children depth u.0 w.1 one.tree one.written.valid (one.written.mode ∙ m)
                (Written-IsFull b w.1 one.bits one.written full) (rw (whole, one.behind) at ok') in
            rw (whole, one.behind)
              (Back-seq b w u (walk decodes decode_leaf sync_type obj_type false n (child ∷ rest)) _
                (visit_children sync_type obj_type nodes n depth)
                (walk_children decodes decode_leaf sync_type obj_type false n depth) one two))
          ok

    pub both_back : (n : ℕ) → NodeBack n × ChildrenBack n
    unfolding write_node write_children
    both_back zero = (
      λ node rest b tree v m full ok. absurd (ground arith),
      λ depth rest b tree v m full ok. absurd (ground arith),
    )
    both_back (suc n) =
        let (node, children) = both_back n in (node_step n children, children_step n node children)
