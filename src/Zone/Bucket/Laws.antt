-- ===== src/Zone/Bucket/Laws.antt =====
-- The registry stands for four total functions: the bucket of a player and of an entity, and the
-- two policies of a bucket.
use baston.Prelude.Map.{lookup, insert, remove, lookup-insert, lookup-remove}
use baston.Prelude.{
  ℕ, ◌==◌, ◌≡◌, refl, ap, ◌∙◌, arith, Bool, true, ◌&&◌, some, List, [], ◌∷◌, if◌then◌else◌, inl,
  inr, Bool-cases,
}
use baston.Zone.Bucket.{
  LockdownMode, inactive, BucketPolicy, default_policy, RegistryState, new_registry, or_zero,
  player_bucket, entity_bucket, set_player_bucket, set_entity_bucket, remove_player, remove_entity,
  policy, set_lockdown, set_population_enabled, visible, not_strict, allows_client_create,
  allows_takeover,
}

pub data Call : Type 0 where
  player : (source bucket : ℕ) → Call
  entity : (object_id bucket : ℕ) → Call
  player_left : (source : ℕ) → Call
  entity_gone : (object_id : ℕ) → Call
  lockdown : (bucket : ℕ) → LockdownMode → Call
  population : (bucket : ℕ) → Bool → Call

unfoldable pub perform : RegistryState → Call → RegistryState
perform s (player source bucket) = set_player_bucket s source bucket
perform s (entity object_id bucket) = set_entity_bucket s object_id bucket
perform s (player_left source) = remove_player s source
perform s (entity_gone object_id) = remove_entity s object_id
perform s (lockdown bucket mode) = set_lockdown s bucket mode
perform s (population bucket enabled) = set_population_enabled s bucket enabled

unfoldable pub run : RegistryState → List Call → RegistryState
run s [] = s
run s (call ∷ calls) = run (perform s call) calls

pub record View : Type 0 where
  pub player_in : ℕ → ℕ
  pub entity_in : ℕ → ℕ
  pub mode_of : ℕ → LockdownMode
  pub populated : ℕ → Bool

unfoldable pub initial : View
initial = record {
  player_in = λ _. 0;
  entity_in = λ _. 0;
  mode_of = λ _. inactive;
  populated = λ _. true;
}

abbrev pub update {ℓ} : {A : Type ℓ} → (ℕ → A) → ℕ → A → ℕ → A
update f k v q = if k == q then v else f q

unfoldable pub perform_view : View → Call → View
perform_view v (player source bucket) = record v { player_in = update v.player_in source bucket }
perform_view v (entity object_id bucket) = record v {
  entity_in = update v.entity_in object_id bucket;
}
perform_view v (player_left source) = record v { player_in = update v.player_in source 0 }
perform_view v (entity_gone object_id) = record v { entity_in = update v.entity_in object_id 0 }
perform_view v (lockdown bucket mode) = record v { mode_of = update v.mode_of bucket mode }
perform_view v (population bucket enabled) = record v {
  populated = update v.populated bucket enabled;
}

unfoldable pub run_view : View → List Call → View
run_view v [] = v
run_view v (call ∷ calls) = run_view (perform_view v call) calls

record Agrees (s : RegistryState) (v : View) : Type 0 where
  pub players : (q : ℕ) → player_bucket s q ≡ v.player_in q
  pub entities : (q : ℕ) → entity_bucket s q ≡ v.entity_in q
  pub modes : (b : ℕ) → (policy s b).lockdown ≡ v.mode_of b
  pub populations : (b : ℕ) → (policy s b).population_enabled ≡ v.populated b

-- Storing nothing for bucket 0 reads back as bucket 0.
or_zero-set :
    (k b q : ℕ) (m : List (ℕ × ℕ))
    → or_zero (lookup q (if b == 0 then remove k m else insert k b m))
      ≡ (if k == q then b else or_zero (lookup q m))
unfolding or_zero
or_zero-set k b q m = ground (arith, lookup-remove k q m, lookup-insert k q b m)

or_zero-remove :
    (k q : ℕ) (m : List (ℕ × ℕ))
    → or_zero (lookup q (remove k m)) ≡ (if k == q then 0 else or_zero (lookup q m))
unfolding or_zero
or_zero-remove k q m = ground (arith, lookup-remove k q m)

module _ (s : RegistryState) (b : ℕ) (p : BucketPolicy) where
  policy-insert :
      (q : ℕ)
      → policy (record s { policies = insert b p s.policies }) q
        ≡ (if b == q then p else policy s q)
  unfolding policy
  policy-insert q = elim (Bool-cases (b == q)) [
    | inl same ↦
        let found : lookup q (insert b p s.policies) ≡ some p =
          lookup-insert b q p s.policies ∙ rw same refl in
        rw same (rw (found, policy) refl)
    | inr other ↦
        let found : lookup q (insert b p s.policies) ≡ lookup q s.policies =
          lookup-insert b q p s.policies ∙ rw other refl in
        rw other (rw (found, policy) refl)
  ]

module _ (s : RegistryState) (b : ℕ) where
  same_policy : (q : ℕ) → (b == q) ≡ true → policy s b ≡ policy s q
  same_policy q same = ap (policy s) (ground arith)

  lockdown-set :
      (mode : LockdownMode) (q : ℕ)
      → (policy (set_lockdown s b mode) q).lockdown
        ≡ (if b == q then mode else (policy s q).lockdown)
  unfolding set_lockdown
  lockdown-set mode q =
      ap (λ p. p.lockdown) (policy-insert s b (record (policy s b) { lockdown = mode }) q)
      ∙ elim (Bool-cases (b == q)) [ inl same ↦ rw same refl | inr other ↦ rw other refl ]

  population-kept :
      (mode : LockdownMode) (q : ℕ)
      → (policy (set_lockdown s b mode) q).population_enabled ≡ (policy s q).population_enabled
  unfolding set_lockdown
  population-kept mode q =
      ap (λ p. p.population_enabled) (policy-insert s b (record (policy s b) { lockdown = mode }) q)
      ∙ elim (Bool-cases (b == q)) [
        | inl same ↦ rw same (ap (λ p. p.population_enabled) (same_policy q same))
        | inr other ↦ rw other refl
      ]

  population-set :
      (enabled : Bool) (q : ℕ)
      → (policy (set_population_enabled s b enabled) q).population_enabled
        ≡ (if b == q then enabled else (policy s q).population_enabled)
  unfolding set_population_enabled
  population-set enabled q =
      ap (λ p. p.population_enabled)
        (policy-insert s b (record (policy s b) { population_enabled = enabled }) q)
      ∙ elim (Bool-cases (b == q)) [ inl same ↦ rw same refl | inr other ↦ rw other refl ]

  lockdown-kept :
      (enabled : Bool) (q : ℕ)
      → (policy (set_population_enabled s b enabled) q).lockdown ≡ (policy s q).lockdown
  unfolding set_population_enabled
  lockdown-kept enabled q =
      ap (λ p. p.lockdown)
        (policy-insert s b (record (policy s b) { population_enabled = enabled }) q)
      ∙ elim (Bool-cases (b == q)) [
        | inl same ↦ rw same (ap (λ p. p.lockdown) (same_policy q same))
        | inr other ↦ rw other refl
      ]

perform-Agrees :
    (s : RegistryState) (v : View) (call : Call)
    → Agrees s v
    → Agrees (perform s call) (perform_view v call)
unfolding perform perform_view player_bucket entity_bucket set_player_bucket set_entity_bucket
    remove_player remove_entity policy set_lockdown set_population_enabled
perform-Agrees s v (player source bucket) a = record {
  players = λ q.
      or_zero-set source bucket q s.players
      ∙ ap (λ t. if source == q then bucket else t) (a.players q);
  entities = a.entities;
  modes = a.modes;
  populations = a.populations;
}
perform-Agrees s v (entity object_id bucket) a = record {
  players = a.players;
  entities = λ q.
      or_zero-set object_id bucket q s.entities
      ∙ ap (λ t. if object_id == q then bucket else t) (a.entities q);
  modes = a.modes;
  populations = a.populations;
}
perform-Agrees s v (player_left source) a = record {
  players =
      λ q. or_zero-remove source q s.players ∙ ap (λ t. if source == q then 0 else t) (a.players q);
  entities = a.entities;
  modes = a.modes;
  populations = a.populations;
}
perform-Agrees s v (entity_gone object_id) a = record {
  players = a.players;
  entities = λ q.
      or_zero-remove object_id q s.entities
      ∙ ap (λ t. if object_id == q then 0 else t) (a.entities q);
  modes = a.modes;
  populations = a.populations;
}
perform-Agrees s v (lockdown bucket mode) a = record {
  players = a.players;
  entities = a.entities;
  modes = λ q. lockdown-set s bucket mode q ∙ ap (λ t. if bucket == q then mode else t) (a.modes q);
  populations = λ q. population-kept s bucket mode q ∙ a.populations q;
}
perform-Agrees s v (population bucket enabled) a = record {
  players = a.players;
  entities = a.entities;
  modes = λ q. lockdown-kept s bucket enabled q ∙ a.modes q;
  populations = λ q.
      population-set s bucket enabled q
      ∙ ap (λ t. if bucket == q then enabled else t) (a.populations q);
}

run-Agrees :
    (calls : List Call) (s : RegistryState) (v : View)
    → Agrees s v
    → Agrees (run s calls) (run_view v calls)
unfolding run run_view
run-Agrees [] s v a = a
run-Agrees (call ∷ calls) s v a =
    run-Agrees calls (perform s call) (perform_view v call) (perform-Agrees s v call a)

new-Agrees : Agrees new_registry initial
unfolding new_registry initial player_bucket entity_bucket policy default_policy or_zero lookup
new-Agrees = record {
  players = λ q. refl;
  entities = λ q. refl;
  modes = λ b. refl;
  populations = λ b. refl;
}

-- After any sequence of calls on a fresh registry, what it decides is what four total functions
-- decide that the calls update at one place each: an entity is visible to the players of its
-- bucket, a player may create entities unless its bucket is in strict lockdown, and a takeover
-- needs both players in the entity's bucket.
pub run-View :
    (calls : List Call) (source target object_id : ℕ)
    → (visible (run new_registry calls) source object_id ≡ (
        (run_view initial calls).player_in source == (run_view initial calls).entity_in object_id))
      × (allows_client_create (run new_registry calls) source
          ≡ not_strict
              ((run_view initial calls).mode_of ((run_view initial calls).player_in source)))
      × (allows_takeover (run new_registry calls) source target object_id ≡ (
          ((run_view initial calls).player_in source
            == (run_view initial calls).entity_in object_id)
          && ((run_view initial calls).player_in target
              == (run_view initial calls).entity_in object_id)))
unfolding visible allows_client_create allows_takeover
run-View calls source target object_id =
    let a = run-Agrees calls new_registry initial new-Agrees in
    (
      rw (a.players source, a.entities object_id) refl,
      ap not_strict (
          a.modes (player_bucket (run new_registry calls) source)
          ∙ ap (run_view initial calls).mode_of (a.players source)),
      rw (a.players source, a.players target, a.entities object_id) refl,
    )
