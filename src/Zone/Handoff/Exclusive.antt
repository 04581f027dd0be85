-- ===== src/Zone/Handoff/Exclusive.antt =====
-- What a player has in flight at the gateway is what the manager says about the player.
use baston.Zone.Handoff.Entries.{
  expected, state_of-begin_request, begin_request-refused, state_of-cancel, expected-end_request,
  expected-end_confirm, in_flight-append, alone, All-middle, lookup-retain, retain-none,
}
use baston.Zone.Handoff.Crossings.{IsHome, after_crossing-IsHome, after_activation-IsHome}
use baston.Prelude.Map.{lookup, lookup-insert, lookup-remove}
use baston.Zone.Handoff.Reach.{
  GatewayCall, prepare, confirm, Flight, World, start, in_time, IsInTime, kind_of, in_flight,
  after_request, after_confirm, Step, tick, request, prepare_reply, cross, confirm_reply,
  turn_around, prune, release, Reach, here, next, preparing, Crossing, activate_reply,
  rollback_reply,
}
use baston.Zone.Handoff.{
  kept, begin_transfer, end_confirm, HandoffManager, new, Name, HandoffState, preparation_requested,
  ready_to_transfer, transferring, state_of, elapsed, begin_request, begin_confirm, cancel, forget,
  prune_expired, prepared, prepare_timeout,
}
use baston.Prelude.{
  refl, ℕ, ◌≡◌, arith, Bool, true, false, Option, none, some, List, [], ◌∷◌, ◌++◌, All, leb, ◌==◌,
  if◌then◌else◌, Bool-cases, Option-cases, inl, inr, sym, ◌∙◌, ap,
}

pub record IsExclusive (w : World) : Type 0 where
  pub one : (p : ℕ) → in_flight p w.calls ≡ expected (state_of p w.manager)
  pub timely : All (IsInTime w.clock) w.calls
  pub home : All (IsHome w.zone_id) w.crossings

request-IsExclusive :
    (w : World) (p : ℕ) (m : HandoffManager) (called : Bool)
    → begin_request w.clock p w.manager ≡ (m, called)
    → IsExclusive w
    → IsExclusive (after_request p w (m, called))
unfolding after_request in_flight
request-IsExclusive w p m false e v =
    let same : m ≡ w.manager =
      sym (ap (λ r. r.0) e) ∙ begin_request-refused w.clock p w.manager (ap (λ r. r.1) e) in
    record { one = λ q. rw same (v.one q); timely = v.timely; home = v.home }
request-IsExclusive w p m true e v =
    let idle = (state_of-begin_request w.clock p p w.manager (ap (λ r. r.1) e)).0 in
    record {
      one = λ q.
          let entry =
            ap (λ r. state_of q r.0) (sym e)
            ∙ (state_of-begin_request w.clock p q w.manager (ap (λ r. r.1) e)).1 in
          elim (Bool-cases (p == q)) [
            | inl same ↦
                let at : p ≡ q = ground arith in
                let none_yet : in_flight q w.calls ≡ [] = rw⁻¹ at (v.one p ∙ ap expected idle) in
                rw (entry, same, none_yet) refl
            | inr other ↦ rw (entry, other) (v.one q)
          ];
      timely = (ground arith, v.timely);
      home = v.home;
    }

confirm-IsExclusive :
    (w : World) (p : ℕ) (s : Option HandoffState)
    → state_of p w.manager ≡ s
    → IsExclusive w
    → IsExclusive (after_confirm p w (begin_transfer p w.manager (prepared s)))
unfolding after_confirm begin_transfer in_flight prepared
confirm-IsExclusive w p none e v = record { one = v.one; timely = v.timely; home = v.home }
confirm-IsExclusive w p (some (preparation_requested _ _)) e v = record {
  one = v.one;
  timely = v.timely;
  home = v.home;
}
confirm-IsExclusive w p (some transferring) e v = record {
  one = v.one;
  timely = v.timely;
  home = v.home;
}
confirm-IsExclusive w p (some (ready_to_transfer _ _)) e v = record {
  one = λ q.
      let entry = lookup-insert p q transferring w.manager.pending_handoffs in
      elim (Bool-cases (p == q)) [
        | inl same ↦
            let at : p ≡ q = ground arith in
            let none_yet : in_flight q w.calls ≡ [] = rw⁻¹ at (v.one p ∙ ap expected e) in
            unfold state_of in rw (entry, same, none_yet) refl
        | inr other ↦ unfold state_of in rw (entry, other) (v.one q)
      ];
  timely = (refl, v.timely);
  home = v.home;
}

-- A reply takes its call out of flight.
reply-IsExclusive :
    (w : World) (before after : List Flight) (c : Flight) (m : HandoffManager)
    (crossings : List Crossing)
    → w.calls ≡ before ++ (c ∷ after)
    → ((q : ℕ)
        → expected (state_of q m)
          ≡ (if c.player_id == q then [] else expected (state_of q w.manager)))
    → All (IsHome w.zone_id) crossings
    → IsExclusive w
    → IsExclusive (record w { manager = m; calls = before ++ after; crossings = crossings })
unfolding in_flight
reply-IsExclusive w before after c m crossings e entry home v = record {
  one = λ q.
      let whole = ap (in_flight q) (sym e) ∙ v.one q in
      elim (Bool-cases (c.player_id == q)) [
        | inl same ↦
            let parts : in_flight q before ++ (kind_of c.call ∷ in_flight q after)
                ≡ expected (state_of q w.manager) =
              rw (in_flight-append q before (c ∷ after), same) at whole in
            rw (entry q, same)
              (in_flight-append q before after
                ∙ (alone (in_flight q before) (in_flight q after) (kind_of c.call)
                    (state_of q w.manager) parts).0)
        | inr other ↦
            let parts : in_flight q before ++ in_flight q after ≡ expected (state_of q w.manager) =
              rw (in_flight-append q before (c ∷ after), other) at whole in
            rw (entry q, other) (in_flight-append q before after ∙ parts)
      ];
  timely = All-middle (IsInTime w.clock) before c after (rw e at v.timely);
  home = home;
}

kind_in_time :
    (now t : ℕ) (call : GatewayCall)
    → kind_of call ≡ preparing t
    → in_time now call ≡ true
    → leb (elapsed now t) prepare_timeout ≡ true
kind_in_time now t (prepare requested_at) e h = let at : requested_at ≡ t = cc e in rw at at h
kind_in_time now t (confirm _) e h = absurd (cc e)

IsInTime-kinds :
    (now p t : ℕ) (calls : List Flight)
    → All (IsInTime now) calls
    → in_flight p calls ≡ preparing t ∷ []
    → leb (elapsed now t) prepare_timeout ≡ true
unfolding in_flight
IsInTime-kinds now p t [] h e = absurd (cc e)
IsInTime-kinds now p t (c ∷ cs) h e = elim (Bool-cases (c.player_id == p)) [
  | inl same ↦
      let whole : kind_of c.call ∷ in_flight p cs ≡ preparing t ∷ [] = rw same at e in
      kind_in_time now t c.call (cc whole) h.0
  | inr other ↦ IsInTime-kinds now p t cs h.1 (rw other at e)
]

-- The entry of a call that is not overdue stays.
entry_kept :
    (now : ℕ) (s : HandoffState)
    → ((t : ℕ) → expected (some s) ≡ preparing t ∷ [] → leb (elapsed now t) prepare_timeout ≡ true)
    → kept now s ≡ true
unfolding kept
entry_kept now (preparation_requested _ requested_at) h = ground (arith, h requested_at refl)
entry_kept now (ready_to_transfer _ _) h = refl
entry_kept now transferring h = refl

-- Pruning drops no entry: a call is over before its entry is old enough.
state_of-prune_expired :
    (w : World) (q : ℕ)
    → IsExclusive w
    → state_of q (prune_expired w.clock w.manager) ≡ state_of q w.manager
unfolding prune_expired state_of
state_of-prune_expired w q v = elim (Option-cases (lookup q w.manager.pending_handoffs)) [
  | inl e ↦ retain-none (kept w.clock) q w.manager.pending_handoffs e ∙ sym e
  | inr (s, e) ↦
      lookup-retain (kept w.clock) q w.manager.pending_handoffs s e (
        entry_kept w.clock s
          (λ t k. IsInTime-kinds w.clock q t w.calls v.timely (v.one q ∙ ap expected e ∙ k)))
      ∙ sym e
]

-- An operation that clears the entry of a player who has nothing in flight.
cleared :
    (w : World) (p q : ℕ) (m : HandoffManager)
    → IsExclusive w
    → in_flight p w.calls ≡ []
    → state_of q m ≡ (if p == q then none else state_of q w.manager)
    → in_flight q w.calls ≡ expected (state_of q m)
cleared w p q m v idle entry = elim (Bool-cases (p == q)) [
  | inl same ↦ let at : p ≡ q = ground arith in rw (entry, same) (rw at at idle)
  | inr other ↦ rw (entry, other) (v.one q)
]

prepared-idle :
    (s : Option HandoffState) (target : Name × Name) → prepared s ≡ some target → expected s ≡ []
unfolding prepared
prepared-idle none target e = refl
prepared-idle (some (preparation_requested _ _)) target e = absurd (cc e)
prepared-idle (some (ready_to_transfer _ _)) target e = refl
prepared-idle (some transferring) target e = absurd (cc e)

Step-IsExclusive : {w w' : World} → Step w w' → IsExclusive w → IsExclusive w'
Step-IsExclusive {w} (tick d h) v = record { one = v.one; timely = h; home = v.home }
Step-IsExclusive {w} (request p) v =
    request-IsExclusive w p (begin_request w.clock p w.manager).0
      (begin_request w.clock p w.manager).1 refl v
Step-IsExclusive {w} (prepare_reply before after p requested_at reply e) v =
    reply-IsExclusive w before after _ _ w.crossings e
      (λ q. expected-end_request w.clock p q reply w.manager) v.home v
Step-IsExclusive {w} (cross p) v =
    unfold begin_confirm in confirm-IsExclusive w p (state_of p w.manager) refl v
Step-IsExclusive {w} (confirm_reply before after p target reply e) v =
    reply-IsExclusive w before after _ _ _ e
      (λ q. expected-end_confirm w.clock p q target reply w.manager)
      (after_crossing-IsHome w.zone_id p (end_confirm w.clock p target reply w.manager).1
        w.crossings v.home)
      v
Step-IsExclusive {w} (activate_reply before after p target activated e) v = record {
  one = v.one;
  timely = v.timely;
  home =
      after_activation-IsHome w.zone_id p activated (before ++ after)
        (All-middle (IsHome w.zone_id) before _ after (rw e at v.home));
}
Step-IsExclusive {w} (rollback_reply before after p sent e) v = record {
  one = v.one;
  timely = v.timely;
  home = All-middle (IsHome w.zone_id) before _ after (rw e at v.home);
}
Step-IsExclusive {w} (turn_around p target e) v = record {
  one = λ q.
      cleared w p q (cancel w.clock p w.manager) v
        (v.one p ∙ prepared-idle (state_of p w.manager) target e)
        (state_of-cancel w.clock p q w.manager);
  timely = v.timely;
  home = v.home;
}
Step-IsExclusive {w} prune v = record {
  one = λ q. v.one q ∙ ap expected (sym (state_of-prune_expired w q v));
  timely = v.timely;
  home = v.home;
}
Step-IsExclusive {w} (release p e) v = record {
  one = λ q.
      cleared w p q (forget p w.manager) v e
        (unfold forget state_of in lookup-remove p q w.manager.pending_handoffs);
  timely = v.timely;
  home = v.home;
}

pub Reach-IsExclusive : {s w : World} → IsExclusive s → Reach s w → IsExclusive w
Reach-IsExclusive v here = v
Reach-IsExclusive v (next r st) = Step-IsExclusive st (Reach-IsExclusive v r)

start-IsExclusive : (zone_id : Name) (cooldown_secs : ℕ) → IsExclusive (start zone_id cooldown_secs)
unfolding start new state_of in_flight lookup
start-IsExclusive zone_id cooldown_secs = record { one = λ q. refl; timely = tt; home = tt }

-- However the calls of the gateway, their replies, the activations, the scans and the releases
-- interleave, `request_handoff` has a `PrepareHandoff` of a player in flight exactly while the manager
-- has the player's preparation as requested, `confirm_crossing` a `ConfirmHandoff` exactly while it has
-- the player as transferring, and the two never more than one call. Beside these, only a rollback sends
-- a `ConfirmHandoff`, and it names its player and the zone itself as both ends. This holds if no
-- `PrepareHandoff` is in flight longer than its timeout and no player with one of the two calls in
-- flight is released.
pub in_flight-expected :
    (zone_id : Name) (cooldown_secs : ℕ) (w : World) (p : ℕ)
    → Reach (start zone_id cooldown_secs) w
    → (in_flight p w.calls ≡ expected (state_of p w.manager)) × All (IsHome w.zone_id) w.crossings
in_flight-expected zone_id cooldown_secs w p r =
    let v = Reach-IsExclusive (start-IsExclusive zone_id cooldown_secs) r in (v.one p, v.home)
