-- ===== src/Voice/Channel/Runs.antt =====
-- The operations that put a channel back under its id keep the invariant, and so does every run
-- of calls.
use baston.Prelude.Map.{lookup, member, add, discard, member-add}
use baston.Prelude.Map.Ascending.{keys}
use baston.Prelude.{
  ℕ, ◌==◌, ◌≡◌, refl, ap, sym, ◌∙◌, arith, Bool, true, false, Option, none, some, List, [], ◌∷◌,
  if◌then◌else◌, inl, inr, Bool-cases, Option-cases,
}
use baston.Voice.Channel.{
  Channel, ChannelStore, root_channel, new, new_channel, game_channel, create_game_channel, leave,
  entry, join, set_listening, stop_listening, drop_session,
}
use baston.Voice.Channel.Order.{is_in}
use baston.Voice.Channel.Invariant.{
  IsValid, new-IsValid, insert-IsValid, leave-IsValid, is_in-leave,
}

pub member-is_in :
    (store : ChannelStore) (id s : ℕ) (ch : Channel)
    → lookup id store ≡ some ch
    → is_in store id s ≡ member s ch.members
unfolding is_in
member-is_in store id s ch h = rw (h, is_in) refl

pub member-entry :
    (store : ChannelStore) (id s : ℕ) → member s (entry store id).members ≡ is_in store id s
unfolding entry is_in new_channel member
member-entry store id s = elim (Option-cases (lookup id store)) [
  | inl fresh ↦ rw (fresh, entry, is_in) refl
  | inr (ch, here) ↦ rw (here, entry, is_in) refl
]

entry-id : (store : ChannelStore) (id : ℕ) → IsValid store → (entry store id).id ≡ id
unfolding entry new_channel
entry-id store id v = elim (Option-cases (lookup id store)) [
  | inl fresh ↦ rw (fresh, entry) refl
  | inr (ch, here) ↦ rw (here, entry) (v.named id ch here)
]

entry-some :
    (store : ChannelStore) (id : ℕ) (ch : Channel) → lookup id store ≡ some ch → entry store id ≡ ch
unfolding entry
entry-some store id ch here = rw (here, entry) refl

some-same :
    (a b : Channel) (o : Option Channel) → o ≡ some a → o ≡ some b → a.temporary ≡ b.temporary
some-same a b o h k = let e : a ≡ b = ground (arith, h, k) in ap (λ c. c.temporary) e

pub create_game_channel-IsValid :
    (store : ChannelStore) (id : ℕ) → IsValid store → IsValid (create_game_channel store id)
unfolding create_game_channel new_channel member
create_game_channel-IsValid store id v = elim (Option-cases (lookup id store)) [
  | inr (ch, here) ↦ rw (here, create_game_channel) v
  | inl fresh ↦
      rw (fresh, create_game_channel)
        (insert-IsValid store id (new_channel id (game_channel id) false) v refl
          (λ old h. absurd (ground (arith, fresh, h))) (λ s q h. cc))
]

pub set_listening-IsValid :
    (store : ChannelStore) (s id : ℕ) (listening : Bool)
    → IsValid store
    → IsValid (set_listening store s id listening)
unfolding set_listening
set_listening-IsValid store s id listening v = elim (Option-cases (lookup id store)) [
  | inl missing ↦ rw (missing, set_listening) v
  | inr (ch, here) ↦
      rw (here, set_listening)
        (insert-IsValid store id
          (record ch {
            listeners = if listening then add s ch.listeners else discard s ch.listeners;
          })
          v (v.named id ch here) (λ old h. some-same ch old (lookup id store) here h)
          (λ t q h. v.single t id q (member-is_in store id t ch here ∙ h)))
]

pub join-IsValid : (store : ChannelStore) (s id : ℕ) → IsValid store → IsValid (join store s id).0
unfolding join
join-IsValid store s id v =
    let after = (leave store s).0 in
    let w = leave-IsValid store v s in
    let ch = entry after id in
    insert-IsValid after id (record ch { members = add s ch.members }) w (entry-id after id w)
      (λ old h. ap (λ c. c.temporary) (entry-some after id old h))
      (λ t q h k.
        w.single t id q
          (ground (
            arith,
            h,
            k,
            member-add s t ch.members,
            is_in-leave store v s q t,
            member-entry after id t,
          ))
          k)

pub lookup-stop_listening :
    (s q : ℕ) (store : ChannelStore)
    → lookup q (stop_listening s store) ≡ elim (lookup q store) [
      | none ↦ none
      | some ch ↦ some (record ch { listeners = discard s ch.listeners })
    ]
unfolding lookup stop_listening
lookup-stop_listening s q [] = refl
lookup-stop_listening s q ((k, ch) ∷ store) = elim (Bool-cases (k == q)) [
  | inl same ↦ rw same refl
  | inr other ↦ rw other (lookup-stop_listening s q store)
]

keys-stop_listening : (s : ℕ) (store : ChannelStore) → keys (stop_listening s store) ≡ keys store
unfolding keys stop_listening
keys-stop_listening s [] = refl
keys-stop_listening s ((k, ch) ∷ store) = ap (λ t. k ∷ t) (keys-stop_listening s store)

pub is_in-stop_listening :
    (s q t : ℕ) (store : ChannelStore) → is_in (stop_listening s store) q t ≡ is_in store q t
unfolding is_in
is_in-stop_listening s q t store = elim (Option-cases (lookup q store)) [
  | inl missing ↦ rw (lookup-stop_listening s q store, missing, is_in) refl
  | inr (ch, here) ↦ rw (lookup-stop_listening s q store, here, is_in) refl
]

stop_listening-IsValid :
    (s : ℕ) (store : ChannelStore) → IsValid store → IsValid (stop_listening s store)
stop_listening-IsValid s store v = record {
  ordered = rw keys-stop_listening v.ordered;
  named = λ q ch h. elim (Option-cases (lookup q store)) [
    | inl missing ↦ absurd (ground (arith, lookup-stop_listening s q store, missing, h))
    | inr (c, here) ↦
        let quiet : Channel = record c { listeners = discard s c.listeners } in
        let is : quiet ≡ ch = ground (arith, lookup-stop_listening s q store, here, h) in
        ap (λ d. d.id) (sym is) ∙ v.named q c here
  ];
  rooted = (
    record v.rooted.0 { listeners = discard s v.rooted.0.listeners },
    rw (lookup-stop_listening, v.rooted.1) refl,
    v.rooted.2,
  );
  single = λ t q r h k.
      v.single t q r (sym (is_in-stop_listening s q t store) ∙ h)
        (sym (is_in-stop_listening s r t store) ∙ k);
}

drop_session-IsValid :
    (store : ChannelStore) (s : ℕ) → IsValid store → IsValid (drop_session store s)
unfolding drop_session
drop_session-IsValid store s v =
    stop_listening-IsValid s (leave store s).0 (leave-IsValid store v s)

-- The calls of the voice server on its channels.
pub data Call : Type 0 where
  create : ℕ → Call
  enter : (session channel_id : ℕ) → Call
  exit : (session : ℕ) → Call
  listen : (session channel_id : ℕ) → Bool → Call
  disconnect : (session : ℕ) → Call

unfoldable pub perform : ChannelStore → Call → ChannelStore
perform store (create id) = create_game_channel store id
perform store (enter session id) = (join store session id).0
perform store (exit session) = (leave store session).0
perform store (listen session id listening) = set_listening store session id listening
perform store (disconnect session) = drop_session store session

unfoldable pub run : ChannelStore → List Call → ChannelStore
run store [] = store
run store (call ∷ calls) = run (perform store call) calls

perform-IsValid :
    (store : ChannelStore) (call : Call) → IsValid store → IsValid (perform store call)
unfolding perform
perform-IsValid store (create id) v = create_game_channel-IsValid store id v
perform-IsValid store (enter session id) v = join-IsValid store session id v
perform-IsValid store (exit session) v = leave-IsValid store v session
perform-IsValid store (listen session id listening) v =
    set_listening-IsValid store session id listening v
perform-IsValid store (disconnect session) v = drop_session-IsValid store session v

pub run-IsValid :
    (calls : List Call) (store : ChannelStore) → IsValid store → IsValid (run store calls)
unfolding run
run-IsValid [] store v = v
run-IsValid (call ∷ calls) store v =
    run-IsValid calls (perform store call) (perform-IsValid store call v)

-- After any sequence of calls on a fresh store, the root channel exists and is permanent, every
-- channel carries the id it is stored under, and no session is in two channels.
pub run-single :
    (calls : List Call)
    → ((root : Channel) × (lookup root_channel (run new calls) ≡ some root)
        × (root.temporary ≡ false))
      × ((id : ℕ) (ch : Channel) → lookup id (run new calls) ≡ some ch → ch.id ≡ id)
      × ((session q r : ℕ)
          → is_in (run new calls) q session ≡ true
          → is_in (run new calls) r session ≡ true
          → q ≡ r)
run-single calls = let v = run-IsValid calls new new-IsValid in (v.rooted, v.named, v.single)
