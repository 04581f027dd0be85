-- ===== src/Rage/Slots/Laws.antt =====
-- The two maps of the allocator are inverse to each other, through every call.
use native.Mathlib.Decide.{ℕ_discrete}
use baston.Prelude.{
  [], ◌∷◌, Bool-cases, ◌==◌, inl, inr, ap, ◌∙◌, sym, ℕ, zero, suc, ◌+◌, ◌≤◌, ◌<◌, ◌≡◌, ◌≢◌, ◌↔◌,
  arith, none, some, List, Option-cases,
}
use baston.Prelude.Map.{lookup, insert, lookup-insert, lookup-remove}
use baston.Rage.Slots.{SlotAllocator, new, slot_of, first_vacant, assign, release}

-- A slot and a net id name each other in both maps, and only game slots other than the reserved
-- one are in use.
pub record IsConsistent (s : SlotAllocator) : Type 0 where
  pub agree :
      (slot net_id : ℕ) → (lookup slot s.slots ≡ some net_id) ↔ (lookup net_id s.by_net ≡ some slot)
  pub in_range : (slot net_id : ℕ) → lookup slot s.slots ≡ some net_id → (slot < 128) × (slot ≢ 31)

pub new-IsConsistent : IsConsistent new
unfolding new lookup
new-IsConsistent = record {
  agree = λ slot net_id. ground arith;
  in_range = λ slot net_id h. ground arith;
}

-- What the loop finds: the least slot from `slot` on that is vacant and not reserved.
pub record IsFirstVacant (slots : List (ℕ × ℕ)) (from limit found : ℕ) : Type 0 where
  pub vacant : lookup found slots ≡ none
  pub lower : from ≤ found
  pub upper : found < limit
  pub usable : found ≢ 31
  pub least : (j : ℕ) → from ≤ j → j < found → j ≢ 31 → lookup j slots ≢ none

IsFirstVacant-skip :
    (slots : List (ℕ × ℕ)) (n slot found : ℕ)
    → (slot ≢ 31 → lookup slot slots ≢ none)
    → IsFirstVacant slots (slot + 1) (slot + 1 + n) found
    → IsFirstVacant slots slot (slot + suc n) found
IsFirstVacant-skip slots n slot found taken rest = record {
  vacant = rest.vacant;
  lower = omega (arith, rest.lower);
  upper = omega (arith, rest.upper);
  usable = rest.usable;
  least = λ j p q r. λ e. elim (ℕ_discrete j slot) [
    | yes same ↦ taken (λ z. r (same ∙ z)) (ap (λ k. lookup k slots) (sym same) ∙ e)
    | no other ↦ rest.least j (omega arith) q r e
  ];
}

first_vacant-some :
    (slots : List (ℕ × ℕ)) (n slot found : ℕ)
    → first_vacant slots n slot ≡ some found
    → IsFirstVacant slots slot (slot + n) found
unfolding first_vacant
first_vacant-some slots zero slot found h = cc
first_vacant-some slots (suc n) slot found h = elim (Bool-cases (slot == 31)) [
  | inl own ↦
      IsFirstVacant-skip slots n slot found (λ r. absurd (ground arith))
        (first_vacant-some slots n (slot + 1) found (ground arith))
  | inr other ↦ elim (Option-cases (lookup slot slots)) [
    | inl free ↦
        let here : slot ≡ found = ground arith in
        record {
          vacant = ap (λ k. lookup k slots) (sym here) ∙ free;
          lower = omega arith;
          upper = omega arith;
          usable = ground arith;
          least = λ j p q r. absurd (omega arith);
        }
    | inr (owner, used) ↦
        IsFirstVacant-skip slots n slot found (λ r e. cc)
          (first_vacant-some slots n (slot + 1) found (ground arith))
  ]
]

first_vacant-none :
    (slots : List (ℕ × ℕ)) (n slot j : ℕ)
    → first_vacant slots n slot ≡ none
    → slot ≤ j
    → j < slot + n
    → j ≢ 31
    → lookup j slots ≢ none
unfolding first_vacant
first_vacant-none slots zero slot j h p q r = absurd (omega arith)
first_vacant-none slots (suc n) slot j h p q r =
    ground (arith, first_vacant-none slots n (slot + 1) j)

module _ (s : SlotAllocator) (c : IsConsistent s) (net_id : ℕ) where
  -- A net id without a slot takes a vacant one.
  taken :
      (slot : ℕ)
      → lookup net_id s.by_net ≡ none
      → IsFirstVacant s.slots 0 128 slot
      → IsConsistent
          (record { slots = insert slot net_id s.slots; by_net = insert net_id slot s.by_net })
  taken slot fresh free = record {
    agree = λ q n. grind (
      arith,
      c.agree q n,
      c.agree slot n,
      c.agree q net_id,
      lookup-insert {V = ℕ} slot q net_id s.slots,
      lookup-insert {V = ℕ} net_id n slot s.by_net,
      free.vacant,
    );
    in_range = λ q n h.
        ground
          (arith, c.in_range q n, lookup-insert slot q net_id s.slots, free.upper, free.usable);
  }

  pub assign-IsConsistent : IsConsistent (assign s net_id).0
  unfolding assign
  assign-IsConsistent = elim (Option-cases (lookup net_id s.by_net)) [
    | inr (slot, held) ↦ rw (held, assign) c
    | inl fresh ↦ elim (Option-cases (first_vacant s.slots 128 0)) [
      | inl full ↦ rw (fresh, full, assign) c
      | inr (slot, free) ↦
          rw (fresh, free, assign) (taken slot fresh (first_vacant-some s.slots 128 0 slot free))
    ]
  ]

  pub release-IsConsistent : IsConsistent (release s net_id).0
  unfolding release
  release-IsConsistent = elim (Option-cases (lookup net_id s.by_net)) [
    | inl absent ↦ rw (absent, release) c
    | inr (slot, held) ↦
        rw (held, release)
          (record {
            agree = λ q n. grind (
              arith,
              c.agree q n,
              c.agree slot n,
              c.agree q net_id,
              c.agree slot net_id,
              lookup-remove {V = ℕ} slot q s.slots,
              lookup-remove {V = ℕ} net_id n s.by_net,
            );
            in_range = λ q n h. ground (arith, c.in_range q n, lookup-remove slot q s.slots);
          })
  ]

  -- `assign` on each of its branches. A net id that holds a slot gets that slot and changes
  -- nothing. Any other gets the least vacant slot below 128 other than 31, is mapped to it, and
  -- every other net id keeps what it has. The call fails only when all those slots are taken, and
  -- then changes nothing.
  pub assign_lem :
      ((slot : ℕ) → slot_of s net_id ≡ some slot → assign s net_id ≡ (s, some slot))
      × ((slot : ℕ)
          → slot_of s net_id ≡ none
          → (assign s net_id).1 ≡ some slot
          → IsFirstVacant s.slots 0 128 slot
            × (slot_of (assign s net_id).0 net_id ≡ some slot)
            × ((n : ℕ) → n ≢ net_id → slot_of (assign s net_id).0 n ≡ slot_of s n))
      × ((assign s net_id).1 ≡ none
          → ((assign s net_id).0 ≡ s) × ((j : ℕ) → j < 128 → j ≢ 31 → lookup j s.slots ≢ none))
  unfolding assign slot_of
  assign_lem = (
    λ slot held. ground arith,
    λ slot fresh result.
        let free : first_vacant s.slots 128 0 ≡ some slot = ground arith in
        (
          first_vacant-some s.slots 128 0 slot free,
          ground (arith, lookup-insert net_id net_id slot s.by_net),
          λ n ne. ground (arith, lookup-insert net_id n slot s.by_net),
        ),
    λ failed. (ground arith, λ j p q. ground (arith, first_vacant-none s.slots 128 0 j)),
  )

  -- `release` frees the slot that it returns and leaves every other net id's slot alone; without a
  -- slot it changes nothing.
  release_lem :
      ((release s net_id).1 ≡ slot_of s net_id)
      × (slot_of (release s net_id).0 net_id ≡ none)
      × ((n : ℕ) → n ≢ net_id → slot_of (release s net_id).0 n ≡ slot_of s n)
  unfolding release slot_of
  release_lem = (
    ground arith,
    ground (arith, lookup-remove net_id net_id s.by_net),
    λ n ne. ground (arith, lookup-remove net_id n s.by_net),
  )

pub data Call : Type 0 where
  enter : ℕ → Call
  leave : ℕ → Call

-- The allocator after a sequence of scope events.
unfoldable pub run : List Call → SlotAllocator → SlotAllocator
run [] s = s
run (enter n ∷ calls) s = run calls (assign s n).0
run (leave n ∷ calls) s = run calls (release s n).0

pub run-IsConsistent :
    (calls : List Call) (s : SlotAllocator) → IsConsistent s → IsConsistent (run calls s)
unfolding run
run-IsConsistent [] s c = c
run-IsConsistent (enter n ∷ calls) s c = run-IsConsistent calls _ (assign-IsConsistent s c n)
run-IsConsistent (leave n ∷ calls) s c = run-IsConsistent calls _ (release-IsConsistent s c n)

-- After any sequence of scope entries and exits from an empty allocator, no two players hold one
-- slot, and every slot held is below 128 and not the reserved slot 31.
pub run-slots_distinct :
    (calls : List Call) (a b slot : ℕ)
    → slot_of (run calls new) a ≡ some slot
    → (slot_of (run calls new) b ≡ some slot → a ≡ b) × (slot < 128) × (slot ≢ 31)
unfolding slot_of
run-slots_distinct calls a b slot ha =
    let c = run-IsConsistent calls new new-IsConsistent in
    (
      λ hb. ground (arith, (c.agree slot a).1 ha, (c.agree slot b).1 hb),
      (c.in_range slot a ((c.agree slot a).1 ha)).0,
      (c.in_range slot a ((c.agree slot a).1 ha)).1,
    )
