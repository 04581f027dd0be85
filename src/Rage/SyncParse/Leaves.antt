-- ===== src/Rage/SyncParse/Leaves.antt =====
-- A leaf of a sync tree, with its length and its payload, is read back.
use baston.Prelude.Bytes.{IsByte}
use baston.Prelude.{
  refl, ℕ, ◌+◌, ◌*◌, ◌^◌, ◌≤◌, ◌<◌, ◌≡◌, arith, Bool, true, false, Option, none, some, List, [],
  ltb, if◌then◌else◌, Bool-cases, inl, inr, length, All, ◌∙◌, ap,
}
use baston.Rage.Buffer.{
  MessageBuffer, set_current_bit, read_bits_single, write_bits, bit_at, from_bits,
}
use baston.Rage.Buffer.Bounds.{IsValid}
use baston.Rage.Buffer.Monad.{Writer, and_then}
use baston.Rage.Buffer.Fields.{put, width, Written, Holds, Written-trans}
use baston.Rage.Clone.Fields.{write_bits_shape}
use baston.Rage.SyncTrees.Node.{Name, FlatNode}
use baston.Rage.SyncWrite.{put_payload}
use baston.Rage.SyncParse.{decode_body, walk_leaf, walk_sized}
use baston.Rage.SyncParse.Pieces.{IsFull, Holds-first, size_back, leaf_bytes, read_bits-leaf}

-- What a leaf carries: a payload of `bits` bits.
pub record Leaf : Type 0 where
  pub name : Name
  pub bytes : List ℕ
  pub bits : ℕ

pub record IsLeaf (leaf : Leaf) : Type 0 where
  pub all_bytes : All IsByte leaf.bytes
  pub enough : leaf.bits ≤ length leaf.bytes * 8
  pub short : leaf.bits < 2 ^ 13

and_then-ok :
    (m : MessageBuffer × Bool) (k : Writer)
    → (and_then m k).1 ≡ true
    → (m.1 ≡ true) × ((k m.0).1 ≡ true) × (and_then m k ≡ k m.0)
and_then-ok (b, true) k h = (refl, h, refl)
and_then-ok (b, false) k h = absurd (ground arith)

write_bits-room :
    (b : MessageBuffer) (xs : List ℕ) (n : ℕ)
    → (write_bits b xs n).1 ≡ true
    → b.cur_bit + n ≤ b.max_bit
unfolding write_bits
write_bits-room b xs n h = ground arith

-- A length, and what the walk does behind it.
module _ {Out : Type 0} (decodes : Name → Bool)
    (decode_leaf : Name → MessageBuffer → Out → Out) where
  -- What a leaf does to the result of the walk.
  abbrev pub decode_one : Leaf → Out → Out
  decode_one leaf out =
      if decodes leaf.name
      then decode_leaf leaf.name (from_bits (leaf_bytes leaf.bytes leaf.bits) leaf.bits) out
      else out

  module _ (hack : Bool) (leaf : Leaf) (ok : IsLeaf leaf) where
    walk_leaf_lem :
        (f : MessageBuffer) (start : ℕ) (rest : List FlatNode) (out : Out)
        → IsValid f
        → read_bits_single f 13 ≡ (set_current_bit f start, some leaf.bits)
        → start + leaf.bits ≤ f.max_bit
        → ((j : ℕ) → j < leaf.bits → bit_at f.bytes (start + j) ≡ bit_at leaf.bytes j)
        → walk_leaf decodes decode_leaf leaf.name rest f out
          ≡ (rest, set_current_bit f (start + leaf.bits), decode_one leaf out, true)
    unfolding walk_leaf walk_sized decode_body set_current_bit
    walk_leaf_lem f start rest out v size fits same =
        let inside : ltb (length f.bytes * 8) (start + leaf.bits) ≡ false =
          ground (arith, v.within) in
        let body =
          read_bits-leaf hack leaf.bytes ok.all_bytes leaf.bits ok.enough
            (record f { cur_bit = start }) start
            (record { all_bytes = v.all_bytes; within = v.within }) refl fits same in
        elim (Bool-cases (decodes leaf.name)) [
          | inl e ↦ rw (size, inside, e, body) refl
          | inr e ↦ rw (size, inside, e) refl
        ]

-- A node without a payload has an empty one.
abbrev pub leaf_of : Name → Option (List ℕ × ℕ) → Leaf
leaf_of name none = record { name = name; bytes = []; bits = 0 }
leaf_of name (some (bytes, bits)) = record { name = name; bytes = bytes; bits = bits }

module _ {Out : Type 0} (decodes : Name → Bool) (decode_leaf : Name → MessageBuffer → Out → Out)
    (hack : Bool) where
  pub leaf_back :
      (name : Name) (p : Option (List ℕ × ℕ)) (b : MessageBuffer)
      → IsLeaf (leaf_of name p)
      → IsValid b
      → b.length_hack ≡ hack
      → IsFull b
      → (put_payload p b).1 ≡ true
      → Written b (put_payload p b).0 (width hack 13 + (leaf_of name p).bits)
        × ((f : MessageBuffer) (rest : List FlatNode) (out : Out)
            → Holds hack
                (put_payload p b).0.bytes
                b.cur_bit
                (width hack 13 + (leaf_of name p).bits)
                f
            → walk_leaf decodes decode_leaf name rest f out ≡ (
              rest,
              set_current_bit f (b.cur_bit + (width hack 13 + (leaf_of name p).bits)),
              decode_one decodes decode_leaf (leaf_of name p) out,
              true,
            ))
  unfolding put_payload
  leaf_back name none b ok v m full h =
      let (written, back) = size_back hack b v m full 0 (omega arith) h in
      let k : width hack 13 + 0 ≡ width hack 13 = omega arith in
      (
        rw k written,
        λ f rest out held.
            let held' : Holds hack (put 0 13 b).0.bytes b.cur_bit (width hack 13) f =
              rw k at held in
            let place : b.cur_bit + width hack 13 + 0 ≡ b.cur_bit + (width hack 13 + 0) =
              omega arith in
            rw place at (
              walk_leaf_lem decodes decode_leaf hack (leaf_of name none) ok f
                (b.cur_bit + width hack 13) rest out held.valid (back f held')
                (omega (arith, held.room)) (λ j l. absurd (omega arith))),
      )
  leaf_back name (some (bytes, bits)) b ok v m full h =
      let (first_ok, second_ok, whole) =
        and_then-ok (put bits 13 b) (λ b'. write_bits b' bytes bits) h in
      let b' = (put bits 13 b).0 in
      let (first, back) = size_back hack b v m full bits ok.short first_ok in
      let (_, second, stored) =
        write_bits_shape bytes bits b' ok.all_bytes ok.enough first.valid
          (write_bits-room b' bytes bits second_ok) in
      rw whole (
        Written-trans b b' (write_bits b' bytes bits).0 (width hack 13) bits first second,
        λ f rest out held.
            let place : b.cur_bit + width hack 13 + bits ≡ b.cur_bit + (width hack 13 + bits) =
              omega arith in
            rw place at (
              walk_leaf_lem decodes decode_leaf hack (leaf_of name (some (bytes, bits))) ok f
                (b.cur_bit + width hack 13) rest out held.valid
                (back f (
                  Holds-first hack b b' (write_bits b' bytes bits).0 (width hack 13) bits f first
                    second held))
                (omega (arith, held.room))
                λ j l.
                  held.same (b.cur_bit + width hack 13 + j) (omega arith) (omega arith)
                  ∙ stored (b.cur_bit + width hack 13 + j) (omega (arith, first.cursor))
                      (omega (arith, first.cursor))
                  ∙ ap (bit_at bytes) (omega (arith, first.cursor))),
      )
