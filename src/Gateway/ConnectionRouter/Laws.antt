-- ===== src/Gateway/ConnectionRouter/Laws.antt =====
-- Who is in a zone, after any calls.
use baston.Prelude.Map.{lookup-insert, lookup-remove, lookup, insert, member}
use baston.Prelude.Map.Ascending.{
  Ascending, keys, keys-insert, keys-remove, Ascending-add, Ascending-discard, lookup-Ascending,
}
use baston.Prelude.{
  if◌then◌else◌, refl, ℕ, suc, ◌+◌, ◌≡◌, ◌↔◌, arith, Bool, true, false, Option, none, some, List,
  [], ◌∷◌, ◌==◌, length, Bool-cases, inl, inr, sym, ◌∙◌, ap,
}
use baston.Rage.SyncTrees.Node.{Name, same_name}
use baston.Gateway.ConnectionRouter.{
  ConnectionRouter, new, assign, zone_of, commit_handoff, commit_batch, remove_player, in_zone,
  players_in_zone, count, count_in_zone,
}

same_name_refl : (a : Name) → same_name a a ≡ true
unfolding same_name
same_name_refl [] = refl
same_name_refl (a ∷ as') = ground (arith, same_name_refl as')

same_name_same : (a b : Name) → same_name a b ≡ true → a ≡ b
unfolding same_name
same_name_same [] [] h = refl
same_name_same [] (b ∷ bs) h = absurd (ground arith)
same_name_same (a ∷ as') [] h = absurd (ground arith)
same_name_same (a ∷ as') (b ∷ bs) h =
    let first : a ≡ b = ground arith in
    let rest : same_name as' bs ≡ true = ground arith in
    let behind = same_name_same as' bs rest in rw (first, behind) refl

abbrev routed_to : Name → Option Name → Bool
routed_to zone_id none = false
routed_to zone_id (some zone) = same_name zone zone_id

routed_to_same :
    (zone_id : Name) (zone : Option Name) → (routed_to zone_id zone ≡ true) ↔ (zone ≡ some zone_id)
routed_to_same zone_id none = (λ h. absurd (ground arith), λ h. absurd (cc h))
routed_to_same zone_id (some zone) = (
  λ h. ap some (same_name_same zone zone_id h),
  λ h. let same : zone ≡ zone_id = cc h in rw same (same_name_refl zone_id),
)

member-in_zone :
    (low source : ℕ) (zone_id : Name) (table : List (ℕ × Name))
    → Ascending low (keys table)
    → member source (in_zone zone_id table) ≡ routed_to zone_id (lookup source table)
unfolding member in_zone lookup keys Ascending
member-in_zone low source zone_id [] a = refl
member-in_zone low source zone_id ((k, zone) ∷ table) (p, a) =
    let behind = member-in_zone (k + 1) source zone_id table a in
    elim (Bool-cases (k == source)) [
      | inl same ↦
          let gone : lookup source table ≡ none =
            lookup-Ascending (k + 1) source table (ground arith) a in
          elim (Bool-cases (same_name zone zone_id)) [
            | inl e ↦ rw (same, e) (ground (arith, same))
            | inr e ↦ rw (same, e) (behind ∙ rw gone refl)
          ]
      | inr other ↦ elim (Bool-cases (same_name zone zone_id)) [
        | inl e ↦ rw (other, e) (ground (arith, other, behind))
        | inr e ↦ rw (other, e) behind
      ]
    ]

length-in_zone :
    (zone_id : Name) (table : List (ℕ × Name))
    → count zone_id table ≡ length (in_zone zone_id table)
unfolding in_zone count
length-in_zone zone_id [] = refl
length-in_zone zone_id ((k, zone) ∷ table) = elim (Bool-cases (same_name zone zone_id)) [
  | inl e ↦ rw e (ap suc (length-in_zone zone_id table))
  | inr e ↦ rw e (length-in_zone zone_id table)
]

pub data Call : Type 0 where
  connect : (source : ℕ) (zone_id : Name) → Call
  handoff : (source : ℕ) (to_zone : Name) → Call
  batch : List (ℕ × Name) → Call
  leave : (source : ℕ) → Call

unfoldable pub run : List Call → ConnectionRouter → ConnectionRouter
run [] r = r
run (connect source zone_id ∷ calls) r = run calls (assign source zone_id r)
run (handoff source to_zone ∷ calls) r = run calls (commit_handoff source to_zone r).0
run (batch assignments ∷ calls) r = run calls (commit_batch assignments r)
run (leave source ∷ calls) r = run calls (remove_player source r).0

abbrev IsOrdered : ConnectionRouter → Type 0
IsOrdered r = Ascending 0 (keys r.routing_table)

insert-IsOrdered :
    (source : ℕ) (zone : Name) (table : List (ℕ × Name))
    → Ascending 0 (keys table)
    → Ascending 0 (keys (insert source zone table))
insert-IsOrdered source zone table a =
    rw keys-insert (Ascending-add 0 source (keys table) (omega arith) a)

commit_batch-IsOrdered :
    (assignments : List (ℕ × Name)) (r : ConnectionRouter)
    → IsOrdered r
    → IsOrdered (commit_batch assignments r)
unfolding commit_batch
commit_batch-IsOrdered [] r a = a
commit_batch-IsOrdered ((source, zone) ∷ assignments) r a =
    commit_batch-IsOrdered assignments _ (insert-IsOrdered source zone r.routing_table a)

run-IsOrdered : (calls : List Call) (r : ConnectionRouter) → IsOrdered r → IsOrdered (run calls r)
unfolding run assign commit_handoff remove_player
run-IsOrdered [] r a = a
run-IsOrdered (connect source zone_id ∷ calls) r a =
    run-IsOrdered calls _ (insert-IsOrdered source zone_id r.routing_table a)
run-IsOrdered (handoff source to_zone ∷ calls) r a =
    run-IsOrdered calls _ (insert-IsOrdered source to_zone r.routing_table a)
run-IsOrdered (batch assignments ∷ calls) r a =
    run-IsOrdered calls _ (commit_batch-IsOrdered assignments r a)
run-IsOrdered (leave source ∷ calls) r a =
    run-IsOrdered calls _ (rw keys-remove (Ascending-discard 0 source (keys r.routing_table) a))

-- What the calls say of where each player is, without a table: the last word on a player counts.
abbrev pub Places : Type 0
Places = ℕ → Option Name

abbrev pub move : ℕ → Option Name → Places → Places
move source zone places q = if source == q then zone else places q

unfoldable pub move_all : List (ℕ × Name) → Places → Places
move_all [] places = places
move_all ((source, zone) ∷ assignments) places =
    move_all assignments (move source (some zone) places)

unfoldable pub places_after : List Call → Places → Places
places_after [] places = places
places_after (connect source zone_id ∷ calls) places =
    places_after calls (move source (some zone_id) places)
places_after (handoff source to_zone ∷ calls) places =
    places_after calls (move source (some to_zone) places)
places_after (batch assignments ∷ calls) places = places_after calls (move_all assignments places)
places_after (leave source ∷ calls) places = places_after calls (move source none places)

abbrev Agrees : ConnectionRouter → Places → Type 0
Agrees r places = (q : ℕ) → lookup q r.routing_table ≡ places q

insert-Agrees :
    (source : ℕ) (zone : Name) (table : List (ℕ × Name)) (places : Places)
    → Agrees (record { routing_table = table }) places
    → Agrees (record { routing_table = insert source zone table }) (move source (some zone) places)
insert-Agrees source zone table places a q = rw (lookup-insert source q zone table, a q) refl

commit_batch-Agrees :
    (assignments : List (ℕ × Name)) (r : ConnectionRouter) (places : Places)
    → Agrees r places
    → Agrees (commit_batch assignments r) (move_all assignments places)
unfolding commit_batch move_all
commit_batch-Agrees [] r places a = a
commit_batch-Agrees ((source, zone) ∷ assignments) r places a =
    commit_batch-Agrees assignments _ _ (insert-Agrees source zone r.routing_table places a)

run-Agrees :
    (calls : List Call) (r : ConnectionRouter) (places : Places)
    → Agrees r places
    → Agrees (run calls r) (places_after calls places)
unfolding run places_after assign commit_handoff remove_player
run-Agrees [] r places a = a
run-Agrees (connect source zone_id ∷ calls) r places a =
    run-Agrees calls _ _ (insert-Agrees source zone_id r.routing_table places a)
run-Agrees (handoff source to_zone ∷ calls) r places a =
    run-Agrees calls _ _ (insert-Agrees source to_zone r.routing_table places a)
run-Agrees (batch assignments ∷ calls) r places a =
    run-Agrees calls _ _ (commit_batch-Agrees assignments r places a)
run-Agrees (leave source ∷ calls) r places a =
    run-Agrees calls _ _ (λ q. rw (lookup-remove source q r.routing_table, a q) refl)

-- After any sequence of calls on a fresh router, a player is routed to the zone that the last call on
-- the player names, and to none after leaving or before any call; a commit of a handoff and a removal
-- hand back that zone; and the players listed in a zone are exactly those routed to it, as many as are
-- counted there.
pub run-places_after :
    (calls : List Call) (source : ℕ) (zone_id : Name)
    → let r = run calls new in
      let place = places_after calls (λ _. none) source in
      (zone_of source r ≡ place)
      × ((commit_handoff source zone_id r).1 ≡ place)
      × ((remove_player source r).1 ≡ place)
      × ((member source (players_in_zone zone_id r) ≡ true) ↔ (place ≡ some zone_id))
      × (count_in_zone zone_id r ≡ length (players_in_zone zone_id r))
unfolding players_in_zone zone_of count_in_zone commit_handoff remove_player
run-places_after calls source zone_id =
    let r = run calls new in
    let ordered = run-IsOrdered calls new (unfold new keys Ascending in tt) in
    let agrees = run-Agrees calls new (λ _. none) (λ q. unfold new lookup in refl) source in
    let listed = member-in_zone 0 source zone_id r.routing_table ordered in
    let routed = routed_to_same zone_id (lookup source r.routing_table) in
    (
      agrees,
      agrees,
      agrees,
      (λ h. sym agrees ∙ routed.0 (sym listed ∙ h), λ h. listed ∙ routed.1 (agrees ∙ h)),
      length-in_zone zone_id r.routing_table,
    )
