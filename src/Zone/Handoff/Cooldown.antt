-- ===== src/Zone/Handoff/Cooldown.antt =====
-- After a handoff that failed or is over, a player waits before the next one.
use baston.Prelude.Map.{lookup-insert}
use baston.Zone.Handoff.{
  HandoffManager, HandoffState, ready_to_transfer, state_of, in_cooldown, begin_request,
  end_request, cancel, forget, kept, prune_expired, Reply, answered, rpc_failed, timed_out,
  PrepareHandoffResponse,
}
use baston.Zone.Handoff.Entries.{state_of-cancel, lookup-retain}
use baston.Prelude.{
  if_true, refl, ℕ, ◌-◌, ◌≡◌, arith, Bool, true, false, not, none, some, ltb, ◌==◌, if◌then◌else◌,
  ◌∙◌,
}

-- A call that does not make the target zone ready: refused, failed, or not answered in time.
abbrev pub fails : Reply PrepareHandoffResponse → Bool
fails (answered resp) = not resp.ready
fails rpc_failed = true
fails timed_out = true

end_request-cancel :
    (t p : ℕ) (reply : Reply PrepareHandoffResponse) (m : HandoffManager)
    → fails reply ≡ true
    → end_request t p reply m ≡ (cancel t p m, none)
unfolding end_request
end_request-cancel t p (answered resp) m h =
    let refused : resp.ready ≡ false = ground arith in rw refused refl
end_request-cancel t p rpc_failed m h = refl
end_request-cancel t p timed_out m h = refl

in_cooldown-cancel :
    (t now p : ℕ) (s : HandoffState) (m : HandoffManager)
    → state_of p m ≡ some s
    → in_cooldown now p (cancel t p m) ≡ ltb (now - t) m.cooldown
unfolding in_cooldown cancel
in_cooldown-cancel t now p s m e =
    let own : (p == p) ≡ true = ground arith in rw (e, lookup-insert p p t m.cooldowns, own) refl

begin_request-none :
    (now p : ℕ) (m : HandoffManager) (waits : Bool)
    → state_of p m ≡ none
    → in_cooldown now p m ≡ waits
    → (begin_request now p m).1 ≡ not waits
unfolding begin_request
begin_request-none now p m true e c = rw (e, c) refl
begin_request-none now p m false e c = rw (e, c) refl

-- A `PrepareHandoff` that is refused, fails or is not answered in time ends the handoff of a player
-- who has an entry: no target is returned, the entry is gone, every other player's entry stays, and
-- the player can request a handoff again exactly when the cooldown from then on is over.
pub end_request-fails :
    (t now p q : ℕ) (reply : Reply PrepareHandoffResponse) (s : HandoffState) (m : HandoffManager)
    → fails reply ≡ true
    → state_of p m ≡ some s
    → let r = end_request t p reply m in
      (r.1 ≡ none)
      × (state_of q r.0 ≡ (if p == q then none else state_of q m))
      × ((begin_request now p r.0).1 ≡ not (ltb (now - t) m.cooldown))
end_request-fails t now p q reply s m h e =
    let own : (p == p) ≡ true = ground arith in
    rw (end_request-cancel t p reply m h) (
      refl,
      state_of-cancel t p q m,
      begin_request-none now p (cancel t p m) (ltb (now - t) m.cooldown)
          (state_of-cancel t p p m ∙ if_true (p == p) none (state_of p m) own)
          (in_cooldown-cancel t now p s m e),
    )

-- If a player is released while the preparation is in flight, and the answer is then that the target
-- is ready, the manager has the player as ready for that target again, and no pruning removes the
-- entry, however much later.
pub end_request-forget :
    (t later p : ℕ) (resp : PrepareHandoffResponse) (m : HandoffManager)
    → resp.ready ≡ true
    → state_of p (prune_expired later (end_request t p (answered resp) (forget p m)).0)
      ≡ some (ready_to_transfer resp.target_zone resp.target_zone_grpc)
unfolding end_request prune_expired state_of
end_request-forget t later p resp m h =
    let entry = ready_to_transfer resp.target_zone resp.target_zone_grpc in
    let own : (p == p) ≡ true = ground arith in
    rw h (
      lookup-retain (kept later) p _ entry
        (lookup-insert p p entry (forget p m).pending_handoffs
          ∙ if_true (p == p) (some entry) _ own)
        (unfold kept in refl))
