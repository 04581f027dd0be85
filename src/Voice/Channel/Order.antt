-- ===== src/Voice/Channel/Order.antt =====
-- Each operation on channels as an update of the channels by id, in a store in key order.
use baston.Prelude.Map.Ascending.{Ascending, keys, keys-remove, Ascending-discard, lookup-Ascending}
use baston.Prelude.Map.{lookup, member, discard, lookup-remove}
use baston.Prelude.{
  ℕ, ◌+◌, ◌==◌, ◌≡◌, inl, inr, refl, ap, sym, ◌∙◌, ◌≢◌, arith, Bool, true, false, ◌&&◌, Option,
  none, some, List, [], ◌∷◌, if◌then◌else◌, Bool-cases, Option-cases,
}
use baston.Voice.Channel.{Channel, ChannelStore, leave_first, gc_temporary, is_empty, root_channel}

abbrev pub without : ℕ → Channel → Channel
without session ch = record ch { members = discard session ch.members }

-- What the loop of `leave` did: it found no channel and changed nothing, or it took the session
-- out of one channel and named it.
pub data IsLeft (session : ℕ) (store : ChannelStore) (left : ChannelStore × Option ℕ) : Type 0 where
  nowhere :
      left ≡ (store, none)
      → ((q : ℕ) (ch : Channel) → lookup q store ≡ some ch → member session ch.members ≡ false)
      → IsLeft session store left
  from :
      (k : ℕ) (ch : Channel)
      → lookup k store ≡ some ch
      → member session ch.members ≡ true
      → left.1 ≡ some ch.id
      → ((q : ℕ) → lookup q left.0 ≡ (if k == q then some (without session ch) else lookup q store))
      → keys left.0 ≡ keys store
      → IsLeft session store left

pub leave_first-IsLeft :
    (low session : ℕ) (store : ChannelStore)
    → Ascending low (keys store)
    → IsLeft session store (leave_first session store)
unfolding leave_first lookup keys Ascending
leave_first-IsLeft low session [] a = nowhere refl (λ q ch h. cc)
leave_first-IsLeft low session ((k, ch) ∷ store) (p, a) =
    let fresh = lookup-Ascending (k + 1) k store (omega arith) a in
    elim (Bool-cases (member session ch.members)) [
      | inl here ↦
          rw (here, leave_first) (from k ch (ground arith) here refl (λ q. ground arith) refl)
      | inr other ↦
          rw (other, leave_first)
            (elim (leave_first-IsLeft (k + 1) session store a) [
              | nowhere e outside ↦ nowhere (ap (λ t. ((k, ch) ∷ t.0, t.1)) e) (λ q c h.
                  elim (Bool-cases (k == q)) [
                    | inl same ↦
                        let is : ch ≡ c = ground arith in
                        ap (λ t. member session t.members) (sym is) ∙ other
                    | inr elsewhere ↦ outside q c (ground arith)
                  ])
              | from j c found inside named others same ↦
                  let apart : k ≢ j = λ e. ground (arith, fresh, found, e) in
                  from j c (ground (arith, found, apart)) inside named
                    (λ q. ground (arith, others q, apart)) (ap (λ t. k ∷ t) same)
            ])
    ]

-- Whether a session is in a channel, and whether it listens to one.
unfoldable pub is_in : ChannelStore → ℕ → ℕ → Bool
is_in store id session = elim (lookup id store) [
  | none ↦ false
  | some ch ↦ member session ch.members
]

unfoldable pub listens : ChannelStore → ℕ → ℕ → Bool
listens store id session = elim (lookup id store) [
  | none ↦ false
  | some ch ↦ member session ch.listeners
]

is_empty-nil : (xs : List ℕ) → is_empty xs ≡ true → xs ≡ []
unfolding is_empty
is_empty-nil [] h = refl
is_empty-nil (x ∷ xs) h = cc

-- A collected channel had nobody in it, and is not the root.
pub data IsCollected (store : ChannelStore) (id q : ℕ) : Type 0 where
  kept : lookup q (gc_temporary store id) ≡ lookup q store → IsCollected store id q
  gone :
      (ch : Channel)
      → lookup q store ≡ some ch
      → ch.temporary ≡ true
      → ch.members ≡ []
      → ch.listeners ≡ []
      → q ≢ root_channel
      → lookup q (gc_temporary store id) ≡ none
      → IsCollected store id q

pub gc_temporary-IsCollected : (store : ChannelStore) (id q : ℕ) → IsCollected store id q
unfolding gc_temporary
gc_temporary-IsCollected store id q = elim (Bool-cases (id == root_channel)) [
  | inl is_root ↦ kept (rw (is_root, gc_temporary) refl)
  | inr other ↦ elim (Option-cases (lookup id store)) [
    | inl missing ↦ kept (rw (other, missing, gc_temporary) refl)
    | inr (ch, found) ↦
        elim (Bool-cases (ch.temporary && (is_empty ch.members && is_empty ch.listeners))) [
          | inr stays ↦ kept (rw (other, found, stays, gc_temporary) refl)
          | inl unused ↦ elim (Bool-cases (id == q)) [
            | inr apart ↦
                kept (
                  rw (other, found, unused, gc_temporary)
                    (lookup-remove id q store ∙ rw apart refl))
            | inl same ↦
                gone ch (ground (arith, found)) (ground (arith, unused))
                  (is_empty-nil ch.members (ground (arith, unused)))
                  (is_empty-nil ch.listeners (ground (arith, unused))) (ground arith)
                  (rw (other, found, unused, gc_temporary)
                    (lookup-remove id q store ∙ rw same refl))
          ]
        ]
  ]
]

pub is_in-gc_temporary :
    (store : ChannelStore) (id q session : ℕ)
    → is_in (gc_temporary store id) q session ≡ is_in store q session
unfolding is_in member
is_in-gc_temporary store id q session = elim (gc_temporary-IsCollected store id q) [
  | kept e ↦ rw (e, is_in) refl
  | gone ch found t m l r e ↦ rw (e, found, m, is_in) refl
]

pub keys-gc_temporary :
    (low : ℕ) (store : ChannelStore) (id : ℕ)
    → Ascending low (keys store)
    → Ascending low (keys (gc_temporary store id))
unfolding gc_temporary
keys-gc_temporary low store id a = elim (Bool-cases (id == root_channel)) [
  | inl is_root ↦ rw (is_root, gc_temporary) a
  | inr other ↦ elim (Option-cases (lookup id store)) [
    | inl missing ↦ rw (other, missing, gc_temporary) a
    | inr (ch, found) ↦
        elim (Bool-cases (ch.temporary && (is_empty ch.members && is_empty ch.listeners))) [
          | inr stays ↦ rw (other, found, stays, gc_temporary) a
          | inl unused ↦
              rw (other, found, unused, gc_temporary, keys-remove)
                (Ascending-discard low id (keys store) a)
        ]
  ]
]
