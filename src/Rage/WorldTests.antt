-- ===== src/Rage/WorldTests.antt =====
-- The theorems on the world grid and the sync trees at concrete inputs, and runs of the code.
use baston.Rage.Buffer as Buffer
use baston.Rage.Buffer.{
  with_length_hack, write_bit, write_bits, write_bits_single, write_loop, effective_len,
  data_length, bit_at, bit_of, bit_of_bool, copy_bits, copy_bytes, copy_loop, put_bit, set_bit_at,
  set_current_bit, from_bits,
}
use baston.Rage.SyncTrees.Node.{same_name}
use baston.Rage.SyncParse.Visit.{visit, visit_children}
use baston.Rage.SyncParse.Fuel.{fuel_suffices}
use baston.Prelude.{suc}
use baston.Rage.SyncParse.{walk}
use baston.Rage.SyncWrite.{
  fuel, write_tree, write_all, write_node, write_children, write_kind, write_while, write_next,
  write_gated, write_present, put_payload, is_authored, contains, subtree_has_payload, is_present,
  gates_open, conditional, skip_subtree, payload,
}
use baston.Prelude.{
  refl, ℕ, ◌+◌, ◌-◌, ◌/◌, ◌≤◌, ◌≡◌, ◌↔◌, arith, true, false, some, List, [], ◌∷◌, length, All,
}
use baston.Udp.{codes}
use baston.Rage.Clone.{door}
use baston.Rage.Buffer.{MessageBuffer}
use baston.Rage.WorldGrid.{Plane, new, owner_of, owned_cells, has_cell}
use baston.Rage.WorldGrid.Runs.{Call, focus, leave, run, run-owner_of}
use baston.Rage.SyncTrees.{tree_for}
use baston.Rage.SyncTrees.Node.{Name}
use baston.Rage.SyncWrite.{AuthoredNode, write_sync_tree}
use baston.Rage.SyncParse.{parse_sync_tree}
use baston.Rage.SyncParse.Visit.{decode_all}
use baston.Rage.SyncParse.Authored.{IsPayload, leaves_of, parse_sync_tree-write_sync_tree}

-- A coordinate is a whole number here, a sector is 150 wide and the radius is 299.
abbrev whole : Plane ℕ
whole = record { cell = λ c. c / 150; minus_radius = λ c. c - 299; plus_radius = λ c. c + 299 }

abbrev calls : List (Call ℕ)
calls = focus 4 100 100 ∷ focus 5 400 100 ∷ leave 4 ∷ []

run-owner_of_example :
    let g = run whole calls new in
    ((owner_of g 3 0 ≡ some 5) ↔ (has_cell 3 0 (owned_cells g 5) ≡ true))
    × (length (owned_cells g 5) ≤ 32)
run-owner_of_example =
    run-owner_of whole calls 5 3 0
      (λ e. absurd (ground arith), (λ e. absurd (ground arith), (λ e. absurd (ground arith), tt)))
      (λ e. absurd (ground arith)) (omega arith) (omega arith)

abbrev nodes : List AuthoredNode
nodes =
    record { name = codes "CDoorMovementDataNode"; bytes = 0xA5 ∷ 0xC0 ∷ []; bits = 11 }
    ∷ record { name = codes "CGlobalFlagsDataNode"; bytes = 0x80 ∷ []; bits = 2 }
    ∷ []

abbrev written : List ℕ
written = 224 ∷ 2 ∷ 136 ∷ 2 ∷ 233 ∷ 112 ∷ []

write_sync_tree-nodes : write_sync_tree door false false nodes ≡ some written
unfolding write_sync_tree write_tree tree_for write_all write_node write_children write_kind
    write_while write_next write_gated write_present put_payload is_authored contains
    subtree_has_payload is_present gates_open conditional skip_subtree payload same_name Buffer.new
    with_length_hack write_bit write_bits write_bits_single write_loop effective_len data_length
    bit_at bit_of bit_of_bool copy_bits copy_bytes copy_loop put_bit set_bit_at set_current_bit
write_sync_tree-nodes = refl

nodes-IsPayload : All IsPayload nodes
nodes-IsPayload = (
  record {
    all_bytes = (omega arith, (omega arith, tt));
    enough = omega arith;
    short = omega arith;
  },
  (record { all_bytes = (omega arith, tt); enough = omega arith; short = omega arith }, tt),
)

-- What is decoded of a node here: the length of its name, and its bytes.
abbrev note : Name → MessageBuffer → List (ℕ × List ℕ) → List (ℕ × List ℕ)
note name b out = (length name, b.bytes) ∷ out

parse_sync_tree-write_sync_tree_example :
    parse_sync_tree (λ name. true) note door false written false []
    ≡ decode_all (λ name. true) note (leaves_of (tree_for door) false nodes) []
parse_sync_tree-write_sync_tree_example =
    parse_sync_tree-write_sync_tree (λ name. true) note door false false nodes written []
      nodes-IsPayload write_sync_tree-nodes

decode_all-nodes :
    decode_all (λ name. true) note (leaves_of (tree_for door) false nodes) []
    ≡ (21, 165 ∷ 192 ∷ []) ∷ (20, 128 ∷ []) ∷ []
unfolding decode_all visit visit_children tree_for gates_open conditional skip_subtree is_present
    subtree_has_payload is_authored contains same_name payload from_bits copy_bits copy_loop
    copy_bytes set_bit_at put_bit bit_at bit_of
decode_all-nodes = refl

fuel-door : suc (fuel (tree_for door)) ≤ 100
unfolding tree_for
fuel-door = omega arith

fuel_suffices_example :
    (write_all 2 1 nodes true 100 (tree_for door) (Buffer.new 64)
      ≡ write_all 2 1 nodes false (suc (fuel (tree_for door))) (tree_for door) (Buffer.new 64))
    × (walk (λ name. true) note 2 1 true 100 (tree_for door) (Buffer.new 64) []
        ≡ walk
            (λ name. true)
            note
            2
            1
            false
            (fuel (tree_for door))
            (tree_for door)
            (Buffer.new 64)
            [])
fuel_suffices_example =
    fuel_suffices (λ name. true) note 2 1 nodes true 100 (tree_for door) (Buffer.new 64) []
      fuel-door
