-- ===== src/Rage/Packet/Stream.antt =====
-- The records that a buffer carries, and the decoder that takes them out of it.
use baston.Prelude.{refl, ℕ, ◌+◌, ◌≤◌, ◌≡◌, arith, Bool, some, List, [], ◌∷◌, ◌++◌, sym, ◌∙◌}
use baston.Rage.Buffer.{MessageBuffer, set_current_bit}
use baston.Rage.Buffer.Bounds.{IsValid}
use baston.Rage.Buffer.Monad.{Writer}
use baston.Rage.Buffer.Fields.{ReadBack, Written, Holds}
use baston.Rage.Clone.{DownlinkRecord}
use baston.Rage.Clone.RoundTrip.{next_downlink}

-- The decoder goes from one buffer to the other over these records.
abbrev pub Reads : MessageBuffer → List DownlinkRecord → MessageBuffer → Type 0
Reads f [] f' = f ≡ f'
Reads f (r ∷ rs) f' = (g : MessageBuffer) × (next_downlink f ≡ (g, some r)) × Reads g rs f'

Reads-snoc :
    (f : MessageBuffer) (rs : List DownlinkRecord) (g h : MessageBuffer) (r : DownlinkRecord)
    → Reads f rs g
    → next_downlink g ≡ (h, some r)
    → Reads f (rs ++ (r ∷ [])) h
Reads-snoc f [] g h r here next = (h, rw here next, refl)
Reads-snoc f (x ∷ rs) g h r (f', first, rest) next = (f', first, Reads-snoc f' rs g h r rest next)

-- The buffer holds exactly these records in front of its cursor, whatever comes behind.
pub record Carries (hack : Bool) (b : MessageBuffer) (rs : List DownlinkRecord) : Type 0 where
  pub valid : IsValid b
  pub mode : b.length_hack ≡ hack
  pub back :
      (f : MessageBuffer)
      → Holds hack b.bytes 0 b.cur_bit f
      → Reads f rs (set_current_bit f b.cur_bit)

pub Carries-nothing :
    (hack : Bool) (b : MessageBuffer)
    → IsValid b
    → b.length_hack ≡ hack
    → b.cur_bit ≡ 0
    → Carries hack b []
Carries-nothing hack b v m e = record {
  valid = v;
  mode = m;
  back = λ f held. unfold set_current_bit in λ i. record f { cur_bit = (held.cursor ∙ sym e) i };
}

-- The part of what is held in front of an earlier place.
pub Holds-front :
    (hack : Bool) (b b' : MessageBuffer) (k : ℕ) (f : MessageBuffer)
    → Written b b' k
    → Holds hack b'.bytes 0 (b.cur_bit + k) f
    → Holds hack b.bytes 0 b.cur_bit f
Holds-front hack b b' k f written held = record {
  valid = held.valid;
  mode = held.mode;
  cursor = held.cursor;
  room = omega (arith, held.room);
  same = λ j l u. held.same j l (omega arith) ∙ written.kept j (omega arith);
}

-- The part behind it.
pub Holds-behind :
    (hack : Bool) (bytes : List ℕ) (start k : ℕ) (f : MessageBuffer)
    → Holds hack bytes 0 (start + k) f
    → Holds hack bytes start k (set_current_bit f start)
unfolding set_current_bit
Holds-behind hack bytes start k f held = record {
  valid = record { all_bytes = held.valid.all_bytes; within = held.valid.within };
  mode = held.mode;
  cursor = refl;
  room = omega (arith, held.room);
  same = λ j l u. held.same j (omega arith) (omega arith);
}

pub Carries-snoc :
    (hack : Bool) (b : MessageBuffer) (rs : List DownlinkRecord) (w : Writer) (k : ℕ)
    (r : DownlinkRecord)
    → Carries hack b rs
    → ReadBack hack w k next_downlink r
    → b.cur_bit + k ≤ b.max_bit
    → Carries hack (w b).0 (rs ++ (r ∷ [])) × Written b (w b).0 k
Carries-snoc hack b rs w k r c h fits =
    let (done, written, back) = h b c.valid c.mode fits in
    (
      record {
        valid = written.valid;
        mode = written.mode ∙ c.mode;
        back = λ f held.
            let held' : Holds hack (w b).0.bytes 0 (b.cur_bit + k) f =
              rw (written.cursor) at held in
            let front = c.back f (Holds-front hack b (w b).0 k f written held') in
            let next =
              back (set_current_bit f b.cur_bit)
                (Holds-behind hack (w b).0.bytes b.cur_bit k f held') in
            rw (written.cursor) (Reads-snoc f rs _ _ r front (unfold set_current_bit in next));
      },
      written,
    )
