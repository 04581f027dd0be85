-- ===== src/Zone/Handoff/Entries.antt =====
-- The entry of each player after an operation, and the calls of a player in a sequence of calls.
use baston.Zone.Handoff.{retain}
use baston.Prelude.Map.{lookup, lookup-insert, lookup-remove}
use baston.Zone.Handoff.{is_accepted}
use baston.Zone.Handoff.Reach.{Flight, kind_of, in_flight, Kind, preparing, confirming}
use baston.Zone.Handoff.{
  HandoffManager, Name, HandoffState, preparation_requested, ready_to_transfer, transferring,
  state_of, begin_request, end_request, end_confirm, cancel, Reply, answered, rpc_failed, timed_out,
  PrepareHandoffResponse, ConfirmHandoffResponse,
}
use baston.Prelude.{
  refl, ℕ, ◌≡◌, arith, Bool, true, false, Option, none, some, List, [], ◌∷◌, ◌++◌, All, ◌==◌,
  if◌then◌else◌, Bool-cases, Option-cases, inl, inr, ap,
}

-- What the manager's entry of a player says is in flight.
abbrev pub expected : Option HandoffState → List Kind
expected none = []
expected (some (preparation_requested _ requested_at)) = preparing requested_at ∷ []
expected (some (ready_to_transfer _ _)) = []
expected (some transferring) = confirming ∷ []

-- The entry of each player after an operation.
pub state_of-begin_request :
    (now p q : ℕ) (m : HandoffManager)
    → (begin_request now p m).1 ≡ true
    → (state_of p m ≡ none)
      × (state_of q (begin_request now p m).0
          ≡ (if p == q then some (preparation_requested [] now) else state_of q m))
unfolding begin_request state_of
state_of-begin_request now p q m h = elim (Option-cases (lookup p m.pending_handoffs)) [
  | inl e ↦ (e, ground (arith, lookup-insert p q (preparation_requested [] now) m.pending_handoffs))
  | inr (s, e) ↦ absurd (ground arith)
]

pub begin_request-refused :
    (now p : ℕ) (m : HandoffManager)
    → (begin_request now p m).1 ≡ false
    → (begin_request now p m).0 ≡ m
unfolding begin_request
begin_request-refused now p m h = ground arith

pub state_of-cancel :
    (now p q : ℕ) (m : HandoffManager)
    → state_of q (cancel now p m) ≡ (if p == q then none else state_of q m)
unfolding cancel state_of
state_of-cancel now p q m = elim (Option-cases (lookup p m.pending_handoffs)) [
  | inl e ↦ rw e (ground arith)
  | inr (s, e) ↦ rw e (lookup-remove p q m.pending_handoffs)
]

pub expected-cancel :
    (now p q : ℕ) (m : HandoffManager)
    → expected (state_of q (cancel now p m)) ≡ (if p == q then [] else expected (state_of q m))
expected-cancel now p q m = elim (Bool-cases (p == q)) [
  | inl e ↦ rw (state_of-cancel now p q m, e) refl
  | inr e ↦ rw (state_of-cancel now p q m, e) refl
]

pub expected-end_request :
    (now p q : ℕ) (reply : Reply PrepareHandoffResponse) (m : HandoffManager)
    → expected (state_of q (end_request now p reply m).0)
      ≡ (if p == q then [] else expected (state_of q m))
unfolding end_request
expected-end_request now p q (answered resp) m = elim (Bool-cases resp.ready) [
  | inl e ↦
      let entry = ready_to_transfer resp.target_zone resp.target_zone_grpc in
      elim (Bool-cases (p == q)) [
        | inl same ↦
            unfold state_of in rw (e, lookup-insert p q entry m.pending_handoffs, same) refl
        | inr other ↦
            unfold state_of in rw (e, lookup-insert p q entry m.pending_handoffs, other) refl
      ]
  | inr e ↦ rw e (expected-cancel now p q m)
]
expected-end_request now p q rpc_failed m = expected-cancel now p q m
expected-end_request now p q timed_out m = expected-cancel now p q m

pub state_of-end_confirm :
    (now p q : ℕ) (target : Name × Name) (reply : Reply ConfirmHandoffResponse) (m : HandoffManager)
    → state_of q (end_confirm now p target reply m).0 ≡ (if p == q then none else state_of q m)
unfolding end_confirm state_of
state_of-end_confirm now p q target reply m = elim (Bool-cases (is_accepted reply)) [
  | inl e ↦ rw e (lookup-remove p q m.pending_handoffs)
  | inr e ↦ rw e (state_of-cancel now p q m)
]

pub expected-end_confirm :
    (now p q : ℕ) (target : Name × Name) (reply : Reply ConfirmHandoffResponse) (m : HandoffManager)
    → expected (state_of q (end_confirm now p target reply m).0)
      ≡ (if p == q then [] else expected (state_of q m))
expected-end_confirm now p q target reply m =
    let entry = state_of-end_confirm now p q target reply m in
    elim (Bool-cases (p == q)) [ inl e ↦ rw (entry, e) refl | inr e ↦ rw (entry, e) refl ]

-- The parts of a run of calls.
pub in_flight-append :
    (p : ℕ) (xs ys : List Flight) → in_flight p (xs ++ ys) ≡ in_flight p xs ++ in_flight p ys
unfolding in_flight
in_flight-append p [] ys = refl
in_flight-append p (x ∷ xs) ys = elim (Bool-cases (x.player_id == p)) [
  | inl e ↦ rw e (ap (λ r. kind_of x.call ∷ r) (in_flight-append p xs ys))
  | inr e ↦ rw e (in_flight-append p xs ys)
]

not_empty : (xs ys : List Kind) (k : Kind) → ¬ (xs ++ (k ∷ ys) ≡ [])
not_empty [] ys k e = absurd (cc e)
not_empty (x ∷ xs) ys k e = absurd (cc e)

single :
    (xs ys : List Kind) (k z : Kind) → xs ++ (k ∷ ys) ≡ z ∷ [] → (xs ++ ys ≡ []) × (z ∷ [] ≡ k ∷ [])
single [] ys k z e = (cc e, cc e)
single (x ∷ xs) ys k z e = absurd (not_empty xs ys k (cc e))

-- A call that is in flight is all that its player has in flight.
pub alone :
    (xs ys : List Kind) (k : Kind) (s : Option HandoffState)
    → xs ++ (k ∷ ys) ≡ expected s
    → (xs ++ ys ≡ []) × (expected s ≡ k ∷ [])
alone xs ys k none e = absurd (not_empty xs ys k e)
alone xs ys k (some (preparation_requested _ requested_at)) e =
    single xs ys k (preparing requested_at) e
alone xs ys k (some (ready_to_transfer _ _)) e = absurd (not_empty xs ys k e)
alone xs ys k (some transferring) e = single xs ys k confirming e

pub All-middle :
    {A : Type 0} (P : A → Type 0) (xs : List A) (c : A) (ys : List A)
    → All P (xs ++ (c ∷ ys))
    → All P (xs ++ ys)
All-middle P [] c ys h = h.1
All-middle P (x ∷ xs) c ys h = (h.0, All-middle P xs c ys h.1)

-- Pruning.
pub lookup-retain :
    {V : Type 0} (keep : V → Bool) (q : ℕ) (m : List (ℕ × V))
    → (v : V) → lookup q m ≡ some v
    → keep v ≡ true
    → lookup q (retain keep m) ≡ some v
unfolding lookup retain
lookup-retain keep q [] v e h = e
lookup-retain keep q ((k, w) ∷ m) v e h = elim (Bool-cases (k == q)) [
  | inl same ↦
      let found : w ≡ v = ground (arith) in
      let stays : keep w ≡ true = rw found h in rw (stays, same, found) refl
  | inr other ↦
      let behind : lookup q m ≡ some v = ground arith in
      elim (Bool-cases (keep w)) [
        | inl e' ↦ rw (e', other) (lookup-retain keep q m v behind h)
        | inr e' ↦ rw e' (lookup-retain keep q m v behind h)
      ]
]

pub retain-none :
    {V : Type 0} (keep : V → Bool) (q : ℕ) (m : List (ℕ × V))
    → lookup q m ≡ none
    → lookup q (retain keep m) ≡ none
unfolding lookup retain
retain-none keep q [] e = e
retain-none keep q ((k, w) ∷ m) e = elim (Bool-cases (k == q)) [
  | inl same ↦ absurd (ground arith)
  | inr other ↦
      let behind : lookup q m ≡ none = ground arith in
      elim (Bool-cases (keep w)) [
        | inl e' ↦ rw (e', other) (retain-none keep q m behind)
        | inr e' ↦ rw e' (retain-none keep q m behind)
      ]
]
