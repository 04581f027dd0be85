-- ===== src/Rage/SyncParse/Authored.antt =====
-- A payload that the server authors is parsed to the nodes that were authored.
use baston.Prelude.Bytes.{IsByte}
use baston.Prelude.{
  refl, ℕ, zero, suc, ◌+◌, ◌≤◌, ◌≡◌, arith, Bool, true, false, not, ◌&&◌, none, some, List, [], ◌∷◌,
  ltb, ◌==◌, if◌then◌else◌, Bool-cases, inl, inr, length, take, All, All-take, length-take-le,
  length-replicate, subst, sym, ◌∙◌, ap,
}
use baston.Rage.Buffer.{
  MessageBuffer, new, from_bytes, with_length_hack, set_current_bit, data_length, write_bit,
  read_bit,
}
use baston.Rage.Buffer.Bounds.{IsValid, new-IsValid}
use baston.Rage.Buffer.Fields.{Written, Holds, Written-trans}
use baston.Rage.Clone.{
  NetObjEntityType, automobile, bike, boat, door, heli, object, ped, pickup, pickup_placement,
  plane, submarine, player, trailer, train,
}
use baston.Rage.Buffer.BitLaws.{bit_at-lt}
use baston.Rage.Packet.Decode.{bit_at-take, data_length_lem}
use baston.Rage.SyncTrees.Node.{Name, NodeKind, parent, data_node, FlatNode, same_name}
use baston.Rage.SyncWrite.{
  AuthoredNodes, payload, skip_subtree, write_node, write_all, fuel, write_tree, write_sync_tree,
  AuthoredNode,
}
use baston.Rage.SyncTrees.{tree_for}
use baston.Rage.SyncParse.{walk, parse_tree, parse_sync_tree}
use baston.Rage.SyncParse.Pieces.{IsFull, Written-IsFull, Holds-first, Holds-second, presence_back}
use baston.Rage.SyncParse.Leaves.{Leaf, IsLeaf, leaf_of}
use baston.Rage.SyncParse.Visit.{visit, IsTree, decode_all}
use baston.Rage.SyncParse.RoundTrip.{both_back, write_next-ok}

-- The leaves of the payload for these nodes.
abbrev pub leaves_of : List FlatNode → Bool → AuthoredNodes → List Leaf
leaves_of tree true nodes = (visit 1 0 nodes (fuel tree) tree).1
leaves_of tree false nodes = (visit 2 1 nodes (fuel tree) tree).1

module _ (hack : Bool) (nodes : AuthoredNodes)
    (authored : (name : Name) → IsLeaf (leaf_of name (payload name nodes))) where
  module _ {Out : Type 0} (decodes : Name → Bool) (decode_leaf : Name → MessageBuffer → Out → Out)
      (sync_type obj_type : ℕ) where
    -- All that the loop over the table writes.
    all_written :
        (n : ℕ) (rest : List FlatNode) (b : MessageBuffer)
        → IsTree rest
        → IsValid b
        → b.length_hack ≡ hack
        → IsFull b
        → (write_all sync_type obj_type nodes false n rest b).2 ≡ true
        → (k : ℕ) × Written b (write_all sync_type obj_type nodes false n rest b).1 k
    unfolding write_all
    all_written zero rest b tree v m full ok = absurd (ground arith)
    all_written (suc n) [] b tree v m full ok = (
      0,
      record {
        valid = v;
        cursor = omega arith;
        limit = refl;
        inside = full.1;
        mode = refl;
        size = refl;
        kept = λ j l. refl;
      },
    )
    all_written (suc n) (node ∷ rest) b tree v m full ok =
        let w = write_node sync_type obj_type nodes false n (node ∷ rest) b in
        let (done, whole) = write_next-ok w (write_all sync_type obj_type nodes false n) ok in
        let one =
          (both_back decodes decode_leaf hack sync_type obj_type nodes authored n).0 node rest b
            tree v m full done in
        let (k, two) =
          all_written n w.0 w.1 (rw one.behind one.tree) one.written.valid (one.written.mode ∙ m)
            (Written-IsFull b w.1 one.bits one.written full) (rw whole at ok) in
        (one.bits + k, rw whole (Written-trans b w.1 _ one.bits k one.written two))

    -- The walk over the table, from where the loop began to write.
    walk_all :
        (n : ℕ) (tree : List FlatNode) (b : MessageBuffer) (f : MessageBuffer) (out : Out)
        → IsTree tree
        → IsValid b
        → b.length_hack ≡ hack
        → IsFull b
        → (write_all sync_type obj_type nodes false (suc n) tree b).2 ≡ true
        → (k : ℕ) × Written b (write_all sync_type obj_type nodes false (suc n) tree b).1 k
          × (Holds hack
                (write_all sync_type obj_type nodes false (suc n) tree b).1.bytes
                b.cur_bit
                k
                f
              → (walk decodes decode_leaf sync_type obj_type false n tree f out).2
                ≡ decode_all decodes decode_leaf (visit sync_type obj_type nodes n tree).1 out)
    unfolding walk visit write_all decode_all
    walk_all zero [] b f out t v m full ok =
        let (k, written) = all_written 1 [] b t v m full ok in (k, written, λ held. refl)
    walk_all (suc n) [] b f out t v m full ok =
        let (k, written) = all_written (suc (suc n)) [] b t v m full ok in
        (k, written, λ held. refl)
    walk_all n (node ∷ rest) b f out t v m full ok =
        let w = write_node sync_type obj_type nodes false n (node ∷ rest) b in
        let (done, whole) = write_next-ok w (write_all sync_type obj_type nodes false n) ok in
        let one =
          (both_back decodes decode_leaf hack sync_type obj_type nodes authored n).0 node rest b t v
            m full done in
        let (k, two) =
          all_written n w.0 w.1 (rw one.behind one.tree) one.written.valid (one.written.mode ∙ m)
            (Written-IsFull b w.1 one.bits one.written full) (rw whole at ok) in
        (
          one.bits + k,
          rw whole (Written-trans b w.1 _ one.bits k one.written two),
          λ held.
              ap (λ r. r.2)
                (one.back f out
                  (Holds-first hack b w.1 _ one.bits k f one.written two (rw whole at held))),
        )

-- The bytes that were written, in the buffer that reads them.
take-Holds :
    (hack : Bool) (b b' : MessageBuffer) (k : ℕ)
    → b.cur_bit ≡ 0
    → Written b b' k
    → Holds hack b'.bytes b.cur_bit k
        (with_length_hack (from_bytes (take (data_length b') b'.bytes)) hack)
unfolding with_length_hack from_bytes
take-Holds hack b b' k start w =
    let used = data_length_lem b' in
    let enough : data_length b' ≤ length b'.bytes = omega (arith, used, w.inside, w.valid.within) in
    let counted : length (take (data_length b') b'.bytes) ≡ data_length b' =
      length-take-le (data_length b') b'.bytes enough in
    record {
      valid = record {
        all_bytes = All-take IsByte (data_length b') b'.bytes w.valid.all_bytes;
        within = omega arith;
      };
      mode = refl;
      cursor = sym start;
      room = omega (arith, start, counted, used, w.cursor);
      same =
          λ j l u. bit_at-take (data_length b') b'.bytes j (omega (arith, start, used, w.cursor));
    }

-- The buffer that a tree is written to.
unfoldable fresh : Bool → MessageBuffer
fresh hack = with_length_hack (new 4096) hack

fresh-facts :
    (hack : Bool)
    → IsValid (fresh hack)
      × ((fresh hack).length_hack ≡ hack)
      × ((fresh hack).cur_bit ≡ 0)
      × IsFull (fresh hack)
      × ((write_bit (fresh hack) true).1 ≡ true)
unfolding fresh with_length_hack
fresh-facts hack =
    let v = new-IsValid 4096 in
    let counted : length (new 4096).bytes ≡ 4096 = unfold new in length-replicate {A = ℕ} 4096 0 in
    let limit : (new 4096).max_bit ≡ 32768 = unfold new in refl in
    let start : (new 4096).cur_bit ≡ 0 = unfold new in refl in
    (
      record { all_bytes = v.all_bytes; within = v.within },
      refl,
      start,
      (omega (arith, counted, limit), omega (arith, limit, start)),
      unfold write_bit in ground (arith, counted, start),
    )

-- The table has no leaf with a subtree: a test on the table.
abbrev pub leaf_closed : NodeKind → ℕ → ℕ → Bool
leaf_closed parent depth next = true
leaf_closed (data_node _ _) depth next = not (ltb depth next)

abbrev pub is_tree : List FlatNode → Bool
is_tree [] = true
is_tree (node ∷ []) = true
is_tree (node ∷ (next ∷ rest)) =
    leaf_closed node.kind node.depth next.depth && is_tree (next ∷ rest)

leaf_closed-skip_subtree :
    (kind : NodeKind) (depth : ℕ) (next : FlatNode) (rest : List FlatNode)
    → leaf_closed kind depth next.depth ≡ true
    → (name : Name) (size : ℕ) → kind ≡ data_node name size
    → skip_subtree depth (next ∷ rest) ≡ next ∷ rest
unfolding skip_subtree
leaf_closed-skip_subtree parent depth next rest h name size e = absurd (cc e)
leaf_closed-skip_subtree (data_node _ _) depth next rest h name size e =
    let stop : ltb depth next.depth ≡ false = ground arith in rw stop refl

is_tree-IsTree : (tree : List FlatNode) → is_tree tree ≡ true → IsTree tree
is_tree-IsTree [] h = tt
is_tree-IsTree (node ∷ []) h = (λ name size e. unfold skip_subtree in refl, tt)
is_tree-IsTree (node ∷ (next ∷ rest)) h =
    let closed : leaf_closed node.kind node.depth next.depth ≡ true = ground arith in
    let behind : is_tree (next ∷ rest) ≡ true = ground arith in
    (
      leaf_closed-skip_subtree node.kind node.depth next rest closed,
      is_tree-IsTree (next ∷ rest) behind,
    )

tree_for-is_tree : (ty : NetObjEntityType) → is_tree (tree_for ty) ≡ true
unfolding tree_for
tree_for-is_tree automobile = refl
tree_for-is_tree bike = refl
tree_for-is_tree boat = refl
tree_for-is_tree door = refl
tree_for-is_tree heli = refl
tree_for-is_tree object = refl
tree_for-is_tree ped = refl
tree_for-is_tree pickup = refl
tree_for-is_tree pickup_placement = refl
tree_for-is_tree plane = refl
tree_for-is_tree submarine = refl
tree_for-is_tree player = refl
tree_for-is_tree trailer = refl
tree_for-is_tree train = refl

some_result :
    {A : Type 0} (c : Bool) (x y : A) → (if c then some x else none) ≡ some y → (c ≡ true) × (x ≡ y)
some_result true x y h = (refl, cc h)
some_result false x y h = absurd (ground arith)

flag_one : (f : MessageBuffer) → not ((read_bit f).1 == 0) ≡ true → (read_bit f).1 ≡ 1
unfolding read_bit
flag_one f h = ground (arith, bit_at-lt f.bytes f.cur_bit)

module _ {Out : Type 0} (decodes : Name → Bool) (decode_leaf : Name → MessageBuffer → Out → Out)
    (hack : Bool) (nodes : AuthoredNodes)
    (authored : (name : Name) → IsLeaf (leaf_of name (payload name nodes))) where
  -- The two forms of a tree, written to a buffer that is still empty.
  module _ (tree : List FlatNode) (t : IsTree tree) (out : Out) (b : MessageBuffer) (v : IsValid b)
      (m : b.length_hack ≡ hack) (start : b.cur_bit ≡ 0) (full : IsFull b) where
    create_back :
        (bytes : List ℕ)
        → (write_all 1 0 nodes false (suc (fuel tree)) tree b).2 ≡ true
        → take
            (data_length (write_all 1 0 nodes false (suc (fuel tree)) tree b).1)
            (write_all 1 0 nodes false (suc (fuel tree)) tree b).1.bytes
          ≡ bytes
        → (walk decodes decode_leaf 1 0 false
            (fuel tree)
            tree
            (with_length_hack (from_bytes bytes) hack)
            out).2
          ≡ decode_all decodes decode_leaf (leaves_of tree true nodes) out
    create_back bytes ok same =
        let w = write_all 1 0 nodes false (suc (fuel tree)) tree b in
        let f = with_length_hack (from_bytes bytes) hack in
        let (k, written, read) =
          walk_all hack nodes authored decodes decode_leaf 1 0 (fuel tree) tree b f out t v m full
            ok in
        read (
          subst (λ bs. Holds hack w.1.bytes b.cur_bit k (with_length_hack (from_bytes bs) hack))
            same (take-Holds hack b w.1 k start written))

    sync_back :
        (bytes : List ℕ)
        → (write_bit b true).1 ≡ true
        → (write_all 2 1 nodes false (suc (fuel tree)) tree (write_bit b true).0).2 ≡ true
        → take
            (data_length (write_all 2 1 nodes false (suc (fuel tree)) tree (write_bit b true).0).1)
            (write_all 2 1 nodes false (suc (fuel tree)) tree (write_bit b true).0).1.bytes
          ≡ bytes
        → (walk decodes decode_leaf 2
            (read_bit (with_length_hack (from_bytes bytes) hack)).1
            false
            (fuel tree)
            tree
            (read_bit (with_length_hack (from_bytes bytes) hack)).0
            out).2
          ≡ decode_all decodes decode_leaf (leaves_of tree false nodes) out
    sync_back bytes first_ok ok same =
        let one = (write_bit b true).0 in
        let (first, back) = presence_back hack b v m full true first_ok in
        let w = write_all 2 1 nodes false (suc (fuel tree)) tree one in
        let f = with_length_hack (from_bytes bytes) hack in
        let (k, written, read) =
          walk_all hack nodes authored decodes decode_leaf 2 1 (fuel tree) tree one
            (set_current_bit f (b.cur_bit + 1)) out t first.valid (first.mode ∙ m)
            (Written-IsFull b one 1 first full) ok in
        let held : Holds hack w.1.bytes b.cur_bit (1 + k) f =
          subst
            (λ bs. Holds hack w.1.bytes b.cur_bit (1 + k) (with_length_hack (from_bytes bs) hack))
            same
            (take-Holds hack b w.1 (1 + k) start (Written-trans b one w.1 1 k first written)) in
        let (moved, flag) = back f (Holds-first hack b one w.1 1 k f first written held) in
        rw (moved, flag_one f flag) (read (Holds-second hack b one w.1 1 k f first held))

  parse_tree-write_tree :
      (tree : List FlatNode) (is_create : Bool) (bytes : List ℕ) (out : Out)
      → IsTree tree
      → write_tree tree is_create hack nodes ≡ some bytes
      → parse_tree decodes decode_leaf tree is_create bytes hack out
        ≡ decode_all decodes decode_leaf (leaves_of tree is_create nodes) out
  unfolding write_tree parse_tree fresh
  parse_tree-write_tree tree true bytes out t h =
      let (v, m, start, full, _) = fresh-facts hack in
      let (ok, same) = some_result _ _ bytes h in
      create_back tree t out (fresh hack) v m start full bytes ok same
  parse_tree-write_tree tree false bytes out t h =
      let (v, m, start, full, first_ok) = fresh-facts hack in
      let (ok, same) = some_result _ _ bytes h in
      sync_back tree t out (fresh hack) v m start full bytes first_ok ok same

-- An authored payload that fits in the field of its length.
abbrev pub IsPayload : AuthoredNode → Type 0
IsPayload a = IsLeaf (record { name = a.name; bytes = a.bytes; bits = a.bits })

payload-IsLeaf :
    (nodes : AuthoredNodes)
    → All IsPayload nodes
    → (name : Name) → IsLeaf (leaf_of name (payload name nodes))
unfolding payload
payload-IsLeaf [] h name = record { all_bytes = tt; enough = omega arith; short = omega arith }
payload-IsLeaf (a ∷ nodes) h name = elim (Bool-cases (same_name a.name name)) [
  | inl e ↦
      rw e (let v = h.0 in record { all_bytes = v.all_bytes; enough = v.enough; short = v.short })
  | inr e ↦ rw e (payload-IsLeaf nodes h.1 name)
]

-- Whatever the server authors for an entity, as a creation or as a synchronisation, is walked by the
-- parser node by node: it decodes the payloads of the nodes that the authored ones open in the
-- entity's tree, in the order of the tree, and nothing else, if each payload fits in the field of its
-- length and the tree was written.
pub parse_sync_tree-write_sync_tree :
    {Out : Type 0} (decodes : Name → Bool) (decode_leaf : Name → MessageBuffer → Out → Out)
    (ty : NetObjEntityType) (is_create hack : Bool) (nodes : AuthoredNodes) (bytes : List ℕ)
    (out : Out)
    → All IsPayload nodes
    → write_sync_tree ty is_create hack nodes ≡ some bytes
    → parse_sync_tree decodes decode_leaf ty is_create bytes hack out
      ≡ decode_all decodes decode_leaf (leaves_of (tree_for ty) is_create nodes) out
unfolding write_sync_tree parse_sync_tree
parse_sync_tree-write_sync_tree decodes decode_leaf ty is_create hack nodes bytes out h wrote =
    parse_tree-write_tree decodes decode_leaf hack nodes (payload-IsLeaf nodes h) (tree_for ty)
      is_create bytes out (is_tree-IsTree (tree_for ty) (tree_for-is_tree ty)) wrote
