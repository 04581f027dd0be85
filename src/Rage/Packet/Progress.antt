-- ===== src/Rage/Packet/Progress.antt =====
-- Every round of a decoder moves the cursor, so that its loop ends.
use baston.Prelude.{
  refl, ℕ, zero, suc, ◌+◌, ◌≤◌, ◌≡◌, arith, Bool, true, false, Option, none, some, [], ◌∷◌, leb,
  ◌==◌, if◌then◌else◌, Bool-cases, inl, inr, ap, Option-cases, ◌-◌,
}
use baston.Rage.Buffer.{
  MessageBuffer, read_bits_single, read_bits, read_bit, effective_len, is_at_end,
}
use baston.Rage.Buffer.Monad.{Reader, ◌>>=◌, pure, fail, continue}
use baston.Rage.Buffer.Fields.{get}
use baston.Rage.Clone.Rec
use baston.Rage.Clone.{
  NetObjEntityType, get_blob, get_flag, inbound_creation, inbound_clone, inbound_remove,
  inbound_takeover, read_inbound, InboundRecord, downlink_creation, downlink_clone, downlink_remove,
  downlink_timestamp, read_downlink, DownlinkRecord, timestamp, index, from_u8,
}
use baston.Rage.Packet.{records, all_records}

-- The reader moves the cursor by `k` bits at least, and keeps the limit.
pub record Advances {A : Type 0} (k : ℕ) (m : Reader A) : Type 0 where
  pub step : (b : MessageBuffer) → (b.cur_bit + k ≤ (m b).0.cur_bit) × ((m b).0.max_bit ≡ b.max_bit)

Advances-pure : {A : Type 0} (a : A) → Advances 0 (pure a)
Advances-pure a = record { step = λ b. (omega arith, refl) }

Advances-fail : (A : Type 0) → Advances {A = A} 0 fail
Advances-fail A = record { step = λ b. (omega arith, refl) }

continue-Advances :
    {A B : Type 0} (k : ℕ) (b : MessageBuffer) (m : MessageBuffer × Option A) (f : A → Reader B)
    → (b.cur_bit + k ≤ m.0.cur_bit) × (m.0.max_bit ≡ b.max_bit)
    → ((a : A) → Advances 0 (f a))
    → (b.cur_bit + k ≤ (continue m f).0.cur_bit) × ((continue m f).0.max_bit ≡ b.max_bit)
continue-Advances k b (b', none) f h hf = h
continue-Advances k b (b', some a) f h hf = omega (arith, h, (hf a).step b')

pub Advances-bind :
    {A B : Type 0} (k : ℕ) (m : Reader A) (f : A → Reader B)
    → Advances k m
    → ((a : A) → Advances 0 (f a))
    → Advances k (m >>= f)
Advances-bind k m f h hf = record { step = λ b. continue-Advances k b (m b) f (h.step b) hf }

Advances-get : (len : ℕ) → Advances 0 (get len)
unfolding read_bits_single
Advances-get len = record { step = λ b. ground arith }

Advances-get-3 : Advances 3 (get 3)
unfolding read_bits_single effective_len
Advances-get-3 = record { step = λ b. ground arith }

Advances-blob : (n : ℕ) → Advances 0 (get_blob n)
unfolding get_blob read_bits
Advances-blob n = record { step = λ b. ground arith }

Advances-flag : Advances 0 get_flag
unfolding get_flag read_bit
Advances-flag = record { step = λ b. ground arith }

Advances-map :
    {A B : Type 0} (m : Reader A) (f : A → B) → Advances 0 m → Advances 0 (m >>= λ x. pure (f x))
Advances-map m f h = Advances-bind 0 m _ h (λ a. Advances-pure (f a))

Advances-bits :
    {B : Type 0} (n : ℕ) (f : ℕ → Reader B)
    → ((a : ℕ) → Advances 0 (f a))
    → Advances 0 (get n >>= f)
Advances-bits n f h = Advances-bind 0 (get n) f (Advances-get n) h

Advances-inbound_creation : (is_create : Bool) → Advances 0 (inbound_creation is_create)
unfolding inbound_creation
Advances-inbound_creation true =
    Advances-bits 32 _ (λ t. Advances-map (get 4) (λ r. (from_u8 r, t)) (Advances-get 4))
Advances-inbound_creation false = Advances-pure {A = Option NetObjEntityType × ℕ} (none, 0)

Advances-inbound_clone : (is_create : Bool) → Advances 0 (inbound_clone is_create)
unfolding inbound_clone
Advances-inbound_clone is_create = Advances-bits 16 _ λ u. Advances-bits 13 _ λ o.
    Advances-bind 0 (inbound_creation is_create) _ (Advances-inbound_creation is_create)
      λ c. Advances-bits 12 _ λ n. Advances-map (get_blob n) _ (Advances-blob n)

Advances-inbound_remove : Advances 0 inbound_remove
unfolding inbound_remove
Advances-inbound_remove = Advances-bits 13 _ λ o. Advances-map (get 16) _ (Advances-get 16)

Advances-inbound_takeover : Advances 0 inbound_takeover
unfolding inbound_takeover
Advances-inbound_takeover = Advances-bits 16 _ λ o. Advances-map (get 13) _ (Advances-get 13)

Advances-if :
    {A : Type 0} (c : Bool) (m m' : Reader A)
    → Advances 0 m
    → Advances 0 m'
    → Advances 0 (if c then m else m')
Advances-if true m m' h h' = h
Advances-if false m m' h h' = h'

Advances-read_inbound : (ty : ℕ) → Advances 0 (read_inbound ty)
unfolding read_inbound
Advances-read_inbound ty = Advances-if _ _ _ (Advances-inbound_clone (ty == Rec.create)) (
    Advances-if _ _ _ Advances-inbound_remove (
      Advances-if _ _ _ Advances-inbound_takeover (
        Advances-if _ _ _ (Advances-map {B = InboundRecord} (get 32) timestamp (Advances-get 32)) (
          Advances-if _ _ _ (Advances-map {B = InboundRecord} (get 32) index (Advances-get 32))
            (Advances-fail InboundRecord)))))

pub Advances-next :
    {R : Type 0} (read : ℕ → Reader R)
    → ((ty : ℕ) → Advances 0 (read ty))
    → Advances 3 (get 3 >>= read)
Advances-next read h = Advances-bind 3 (get 3) read Advances-get-3 h

Advances-downlink_creation : (is_create : Bool) → Advances 0 (downlink_creation is_create)
unfolding downlink_creation
Advances-downlink_creation true =
    Advances-bits 4 _ (λ e. Advances-map (get 32) (λ t. (from_u8 e, t)) (Advances-get 32))
Advances-downlink_creation false = Advances-pure {A = Option NetObjEntityType × ℕ} (none, 0)

Advances-downlink_clone : (is_create : Bool) → Advances 0 (downlink_clone is_create)
unfolding downlink_clone
Advances-downlink_clone is_create = Advances-bits 13 _ λ o. Advances-bits 16 _ λ w.
    Advances-bind 0 (downlink_creation is_create) _ (Advances-downlink_creation is_create) λ c.
      Advances-bits 16 _ λ u. Advances-bits 32 _ λ h. Advances-bits 32 _ λ l.
        Advances-bits 32 _
          λ t. Advances-bits 12 _ λ n. Advances-map (get_blob n) _ (Advances-blob n)

Advances-downlink_remove : Advances 0 downlink_remove
unfolding downlink_remove
Advances-downlink_remove =
    Advances-bind 0 get_flag _ Advances-flag
      λ f. Advances-bits 13 _ λ o. Advances-map (get 16) _ (Advances-get 16)

Advances-downlink_timestamp : Advances 0 downlink_timestamp
unfolding downlink_timestamp
Advances-downlink_timestamp = Advances-bits 32 _ λ l. Advances-map (get 32) _ (Advances-get 32)

pub Advances-read_downlink : (ty : ℕ) → Advances 0 (read_downlink ty)
unfolding read_downlink
Advances-read_downlink ty = Advances-if _ _ _ (Advances-downlink_clone (ty == Rec.create)) (
    Advances-if _ _ _ Advances-downlink_remove
      (Advances-if _ _ _ Advances-downlink_timestamp (Advances-fail DownlinkRecord)))

module _ {R : Type 0} (read : ℕ → Reader R) (advances : (ty : ℕ) → Advances 0 (read ty)) where
  records_at_end : (n : ℕ) (b : MessageBuffer) → b.max_bit ≤ b.cur_bit → records read n b ≡ []
  unfolding records is_at_end
  records_at_end zero b h = refl
  records_at_end (suc n) b h =
      let done : leb b.max_bit b.cur_bit ≡ true = ground arith in rw done refl

  pub records-fuel :
      (n m : ℕ) (b : MessageBuffer)
      → b.max_bit ≤ b.cur_bit + n
      → records read (n + m) b ≡ records read n b
  unfolding records is_at_end
  records-fuel zero m b h = records_at_end (0 + m) b (omega arith)
  records-fuel (suc n) m b h =
      let more : suc n + m ≡ suc (n + m) = omega arith in
      rw more (elim (Bool-cases (leb b.max_bit b.cur_bit)) [
        | inl e ↦ rw e refl
        | inr e ↦ rw e (elim (Option-cases ((get 3 >>= read) b).1) [
          | inl e' ↦ rw e' refl
          | inr (r, e') ↦
              let moved = (Advances-next read advances).step b in
              rw e' (ap (◌∷◌ r) (records-fuel n m ((get 3 >>= read) b).0 (omega (arith, moved))))
        ])
      ])

  pub records-enough :
      (n : ℕ) (b : MessageBuffer) → b.max_bit ≤ n → records read n b ≡ all_records read b
  unfolding all_records
  records-enough n b h =
      let split : n ≡ b.max_bit + (n - b.max_bit) = omega arith in
      rw split (records-fuel b.max_bit (n - b.max_bit) b (omega arith))

-- Both decoders' loops end within one round for each bit of the buffer: with more rounds, they
-- give the same records.
pub all_records-fuel :
    (n : ℕ) (b : MessageBuffer)
    → b.max_bit ≤ n
    → (records read_inbound n b ≡ all_records read_inbound b)
      × (records read_downlink n b ≡ all_records read_downlink b)
all_records-fuel n b h = (
  records-enough read_inbound Advances-read_inbound n b h,
  records-enough read_downlink Advances-read_downlink n b h,
)
