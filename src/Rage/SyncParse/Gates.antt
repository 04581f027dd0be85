-- ===== src/Rage/SyncParse/Gates.antt =====
-- The gates of a node are read as they were written.
use baston.Prelude.{
  refl, ℕ, ◌+◌, ◌≡◌, arith, Bool, true, false, not, List, [], ◌∷◌, ltb, ◌==◌, Bool-cases, inl, inr,
  ◌∙◌,
}
use baston.Rage.Buffer.{MessageBuffer, set_current_bit, read_bit, write_bit}
use baston.Rage.Buffer.Bounds.{IsValid}
use baston.Rage.Buffer.Fields.{Written, Holds, Written-trans}
use baston.Rage.SyncTrees.Node.{Name, FlatNode}
use baston.Rage.SyncWrite
use baston.Rage.SyncWrite.{
  AuthoredNodes, skip_subtree, gates_open, conditional, write_gated, write_present,
}
use baston.Rage.SyncParse
use baston.Rage.SyncParse.{should_read, walk_kind}
use baston.Rage.SyncParse.Pieces.{IsFull, Written-IsFull, Holds-first, Holds-second, presence_back}
use baston.Rage.SyncParse.Visit.{Visited, visit_gated, IsTree, decode_all}

module _ (sync_type obj_type : ℕ) (ids : ℕ × ℕ × ℕ) (f : MessageBuffer) where
  pub should_read-closed :
      gates_open sync_type obj_type ids ≡ false → should_read sync_type obj_type ids f ≡ (f, false)
  unfolding gates_open should_read
  should_read-closed h = ground arith

  pub should_read-free :
      gates_open sync_type obj_type ids ≡ true
      → conditional sync_type obj_type ids ≡ false
      → should_read sync_type obj_type ids f ≡ (f, true)
  unfolding gates_open should_read conditional
  should_read-free h h' = ground arith

  pub should_read-bit :
      gates_open sync_type obj_type ids ≡ true
      → conditional sync_type obj_type ids ≡ true
      → should_read sync_type obj_type ids f ≡ ((read_bit f).0, not ((read_bit f).1 == 0))
  unfolding gates_open should_read conditional
  should_read-bit h h' = ground arith

skip_subtree-IsTree :
    (depth : ℕ) (rest : List FlatNode) → IsTree rest → IsTree (skip_subtree depth rest)
unfolding skip_subtree
skip_subtree-IsTree depth [] h = h
skip_subtree-IsTree depth (c ∷ rest) h = elim (Bool-cases (ltb depth c.depth)) [
  | inl e ↦ rw e (skip_subtree-IsTree depth rest h.1)
  | inr e ↦ rw e h
]

module _ {Out : Type 0} (decodes : Name → Bool) (decode_leaf : Name → MessageBuffer → Out → Out)
    (hack : Bool) where
  -- What was written from `b` on is the visited leaves, and the walker takes them back.
  pub record Back (b : MessageBuffer) (w : SyncWrite.Outcome) (v : Visited)
      (walker : MessageBuffer → Out → SyncParse.Outcome decodes decode_leaf) : Type 0 where
    pub bits : ℕ
    pub behind : w.0 ≡ v.0
    pub tree : IsTree v.0
    pub written : Written b w.1 bits
    pub back :
        (f : MessageBuffer) (out : Out)
        → Holds hack w.1.bytes b.cur_bit bits f
        → walker f out ≡ (
          v.0,
          set_current_bit f (b.cur_bit + bits),
          decode_all decodes decode_leaf v.1 out,
          true,
        )

  -- Nothing is written, and nothing is read.
  pub Back-nothing :
      (b : MessageBuffer) (rest : List FlatNode)
      (walker : MessageBuffer → Out → SyncParse.Outcome decodes decode_leaf)
      → IsValid b
      → IsFull b
      → IsTree rest
      → ((f : MessageBuffer) (out : Out) → walker f out ≡ (rest, f, out, true))
      → Back b (rest, b, true) (rest, []) walker
  Back-nothing b rest walker v full tree h = record {
    bits = 0;
    behind = refl;
    tree = tree;
    written = record {
      valid = v;
      cursor = omega arith;
      limit = refl;
      inside = full.1;
      mode = refl;
      size = refl;
      kept = λ j l. refl;
    };
    back = λ f out held.
        let here : f.cur_bit ≡ b.cur_bit + 0 = omega (arith, held.cursor) in
        h f out
        ∙ unfold set_current_bit decode_all in
          λ i. (rest, record f { cur_bit = here i }, out, true);
  }

  write_present-false :
      (m : MessageBuffer × Bool) (depth : ℕ) (rest : List FlatNode)
      (body : MessageBuffer → SyncWrite.Outcome)
      → (write_present m false depth rest body).2 ≡ true
      → (m.1 ≡ true)
        × (write_present m false depth rest body ≡ (skip_subtree depth rest, m.0, true))
  unfolding write_present
  write_present-false (b, true) depth rest body h = (refl, refl)
  write_present-false (b, false) depth rest body h = absurd (ground arith)

  write_present-true :
      (m : MessageBuffer × Bool) (depth : ℕ) (rest : List FlatNode)
      (body : MessageBuffer → SyncWrite.Outcome)
      → (write_present m true depth rest body).2 ≡ true
      → (m.1 ≡ true) × (write_present m true depth rest body ≡ body m.0)
  unfolding write_present
  write_present-true (b, true) depth rest body h = (refl, refl)
  write_present-true (b, false) depth rest body h = absurd (ground arith)

  module _ (sync_type obj_type : ℕ) (ids : ℕ × ℕ × ℕ) (depth : ℕ) (rest : List FlatNode)
      (tree : IsTree rest) (body : MessageBuffer → SyncWrite.Outcome) (inner : Visited)
      (walker : MessageBuffer × Bool → Out → SyncParse.Outcome decodes decode_leaf)
      (closed : (f : MessageBuffer) (out : Out)
        → walker (f, false) out ≡ (skip_subtree depth rest, f, out, true))
      (reached : (b : MessageBuffer)
        → IsValid b
        → b.length_hack ≡ hack
        → IsFull b
        → (body b).2 ≡ true
        → Back b (body b) inner (λ f out. walker (f, true) out)) where
    -- A presence bit in front of what comes with it.
    bit_in_front :
        (b : MessageBuffer) (present : Bool) (w : SyncWrite.Outcome) (v : Visited)
        → gates_open sync_type obj_type ids ≡ true
        → conditional sync_type obj_type ids ≡ true
        → Written b (write_bit b present).0 1
        → ((f : MessageBuffer)
            → Holds hack (write_bit b present).0.bytes b.cur_bit 1 f
            → ((read_bit f).0 ≡ set_current_bit f (b.cur_bit + 1))
              × (not ((read_bit f).1 == 0) ≡ present))
        → Back (write_bit b present).0 w v (λ f out. walker (f, present) out)
        → Back b w v (λ f out. walker (should_read sync_type obj_type ids f) out)
    bit_in_front b present w v gate has_bit first back next =
        let b' = (write_bit b present).0 in
        record {
          bits = 1 + next.bits;
          behind = next.behind;
          tree = next.tree;
          written = Written-trans b b' w.1 1 next.bits first next.written;
          back = λ f out held.
              let (moved, flag) =
                back f (Holds-first hack b b' w.1 1 next.bits f first next.written held) in
              let read = next.back _ out (Holds-second hack b b' w.1 1 next.bits f first held) in
              let place : b'.cur_bit + next.bits ≡ b.cur_bit + (1 + next.bits) =
                omega (arith, first.cursor) in
              rw (should_read-bit sync_type obj_type ids f gate has_bit, moved, flag)
                (unfold set_current_bit in rw place at read);
        }

    pub gated_cases :
        (gate has_bit present : Bool) (b : MessageBuffer)
        → gates_open sync_type obj_type ids ≡ gate
        → conditional sync_type obj_type ids ≡ has_bit
        → IsValid b
        → b.length_hack ≡ hack
        → IsFull b
        → (write_gated gate has_bit present depth rest body b).2 ≡ true
        → Back b
            (write_gated gate has_bit present depth rest body b)
            (visit_gated gate has_bit present depth rest inner)
            (λ f out. walker (should_read sync_type obj_type ids f) out)
    unfolding write_gated
    gated_cases false has_bit present b gate cond v m full h =
        Back-nothing b (skip_subtree depth rest) _ v full (skip_subtree-IsTree depth rest tree)
          λ f out. rw (should_read-closed sync_type obj_type ids f gate) (closed f out)
    gated_cases true false present b gate cond v m full h =
        let r = reached b v m full h in
        record {
          bits = r.bits;
          behind = r.behind;
          tree = r.tree;
          written = r.written;
          back = λ f out held.
              rw (should_read-free sync_type obj_type ids f gate cond) (r.back f out held);
        }
    gated_cases true true false b gate cond v m full h =
        let (ok, whole) = write_present-false (write_bit b false) depth rest body h in
        let (first, back) = presence_back hack b v m full false ok in
        rw whole (
          bit_in_front b false _ _ gate cond first back (
            Back-nothing (write_bit b false).0 (skip_subtree depth rest) _ first.valid
              (Written-IsFull b _ 1 first full) (skip_subtree-IsTree depth rest tree) closed))
    gated_cases true true true b gate cond v m full h =
        let (ok, whole) = write_present-true (write_bit b true) depth rest body h in
        let (first, back) = presence_back hack b v m full true ok in
        rw whole (
          bit_in_front b true _ _ gate cond first back (
            reached (write_bit b true).0 first.valid (first.mode ∙ m)
              (Written-IsFull b _ 1 first full) (rw whole at h)))
