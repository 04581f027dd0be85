-- ===== src/Rage/Clone/RoundTrip.antt =====
-- The client reads from the clone stream the records that the server wrote to it.
use baston.Prelude.{
  refl, ℕ, ◌+◌, ◌*◌, ◌/◌, ◌%◌, ◌^◌, ◌<◌, ◌≡◌, arith, Bool, true, ◌||◌, ◌⊎◌, inl, inr, none, some,
  length, All, ◌==◌, if◌then◌else◌, Bool-cases, ◌≤◌,
}
use baston.Prelude.Bytes.{IsByte}
use baston.Rage.Buffer.Signed.{join_words}
use baston.Rage.Buffer.Signed.Laws.{join_words_lem}
use baston.Rage.Buffer.Monad.{Reader, ◌>>=◌, ◌>>◌, pure}
use baston.Rage.Buffer.Fields.{
  put, get, width, width-le, ReadBack, ReadBack-nothing, ReadBack-bind, ReadBack-field,
  ReadBack-map, ReadBack-here,
}
use baston.Rage.Buffer.Bounds.{IsValid}
use baston.Rage.Buffer.{set_current_bit}
use baston.Rage.Clone.Rec
use baston.Rage.Clone.Fields.{ReadBack-flag, ReadBack-blob}
use baston.Rage.Clone.{
  NetObjEntityType, code, from_u8, entity_code, entity_type_bits, OutboundClone, DownlinkClone,
  DownlinkRecord, clone, remove, timestamp, wire_uniqifier, put_creation, put_blob, get_blob,
  write_outbound_clone, downlink_creation, downlink_clone, read_downlink, write_outbound_remove,
  write_outbound_timestamp, downlink_remove, downlink_timestamp, put_flag, get_flag, automobile,
  bike, boat, door, heli, object, ped, pickup, pickup_placement, plane, submarine, player, trailer,
  train, MessageBuffer,
}

-- One round of the loop of the client's decoder.
abbrev pub next_downlink : Reader DownlinkRecord
next_downlink = get 3 >>= read_downlink

from_u8-code : (e : NetObjEntityType) → from_u8 (code e) ≡ some e
unfolding from_u8 code
from_u8-code automobile = refl
from_u8-code bike = refl
from_u8-code boat = refl
from_u8-code door = refl
from_u8-code heli = refl
from_u8-code object = refl
from_u8-code ped = refl
from_u8-code pickup = refl
from_u8-code pickup_placement = refl
from_u8-code plane = refl
from_u8-code submarine = refl
from_u8-code player = refl
from_u8-code trailer = refl
from_u8-code train = refl

code-lt : (e : NetObjEntityType) → code e < 16
unfolding code
code-lt automobile = omega arith
code-lt bike = omega arith
code-lt boat = omega arith
code-lt door = omega arith
code-lt heli = omega arith
code-lt object = omega arith
code-lt ped = omega arith
code-lt pickup = omega arith
code-lt pickup_placement = omega arith
code-lt plane = omega arith
code-lt submarine = omega arith
code-lt player = omega arith
code-lt trailer = omega arith
code-lt train = omega arith

-- A clone record that the format can carry: every field in its range, at most 4095 bytes of nodes,
-- and an entity type if it is a creation.
pub record IsOutbound (hack : Bool) (c : OutboundClone) : Type 0 where
  pub kind : (c.sync_type ≡ Rec.create) ⊎ (c.sync_type ≡ Rec.sync)
  pub id : c.object_id < 2 ^ width hack 13
  pub owner : c.owner_net_id < 2 ^ 16
  pub typed : c.sync_type ≡ Rec.create → (e : NetObjEntityType) × (c.entity_type ≡ some e)
  pub token : c.creation_token < 2 ^ 32
  pub uniq : c.uniqifier < 2 ^ 16
  pub frame : c.dependent_frame_index < 2 ^ 64
  pub stamp : c.timestamp < 2 ^ 32
  pub bytes : All IsByte c.blob
  pub short : length c.blob < 2 ^ 12

-- What the client should see of a clone record.
abbrev pub as_downlink : OutboundClone → DownlinkClone
as_downlink c = record {
  is_create = c.sync_type == Rec.create;
  object_id = c.object_id;
  owner_net_id = c.owner_net_id;
  entity_type = if c.sync_type == Rec.create then c.entity_type else none;
  creation_token = if c.sync_type == Rec.create then c.creation_token else 0;
  uniqifier = wire_uniqifier c;
  dependent_frame_index = c.dependent_frame_index;
  timestamp = c.timestamp;
  blob = c.blob;
}

abbrev pub creation_width : OutboundClone → ℕ
creation_width c = if c.sync_type == Rec.create then 36 else 0

-- The bits that a clone record takes.
abbrev pub clone_width : Bool → OutboundClone → ℕ
clone_width hack c =
    3
    + (width hack 13
        + (16 + (creation_width c + (16 + (32 + (32 + (32 + (12 + length c.blob * 8))))))))

module _ (hack : Bool) where
  ReadBack-id :
      (v : ℕ) → v < 2 ^ width hack 13 → ReadBack hack (put v 13) (width hack 13) (get 13) v
  ReadBack-id v h = ReadBack-field hack v 13 (width-le hack 13 (omega arith)) h

  ReadBack-16 : (v : ℕ) → v < 2 ^ 16 → ReadBack hack (put v 16) 16 (get 16) v
  ReadBack-16 v h = ReadBack-field hack v 16 (omega arith) h

  ReadBack-32 : (v : ℕ) → v < 2 ^ 32 → ReadBack hack (put v 32) 32 (get 32) v
  ReadBack-32 v h = ReadBack-field hack v 32 (omega arith) h

  ReadBack-created :
      (ty : NetObjEntityType) (token : ℕ)
      → token < 2 ^ 32
      → ReadBack hack
          (put (code ty) entity_type_bits >> put token 32)
          36
          (downlink_creation true)
          (some ty, token)
  unfolding downlink_creation
  ReadBack-created ty token h =
      ReadBack-bind hack (put (code ty) 4) (put token 32) 4 32 (get 4) _ (code ty) (some ty, token)
        (ReadBack-field hack (code ty) 4 (omega arith) (code-lt ty))
        (rw from_u8-code (
          ReadBack-map hack (put token 32) 32 (get 32) (λ t. (some ty, t)) token
            (ReadBack-32 token h)))

module _ (hack : Bool) (c : OutboundClone) (ok : IsOutbound hack c) where
  ReadBack-creation :
      ReadBack hack
        (put_creation c)
        (creation_width c)
        (downlink_creation (c.sync_type == Rec.create))
        ((as_downlink c).entity_type, (as_downlink c).creation_token)
  unfolding put_creation entity_code
  ReadBack-creation = elim (Bool-cases (c.sync_type == Rec.create)) [
    | inl e ↦
        let (ty, typed) = ok.typed (ground arith) in
        rw (e, typed) (ReadBack-created hack ty c.creation_token ok.token)
    | inr e ↦ rw e (unfold downlink_creation in ReadBack-nothing hack (none, 0))
  ]

  wire_uniqifier-lt : wire_uniqifier c < 2 ^ 16
  unfolding wire_uniqifier
  wire_uniqifier-lt = ground (arith, ok.uniq)

  joined :
      join_words (c.dependent_frame_index % 2 ^ 32) (c.dependent_frame_index / 2 ^ 32 % 2 ^ 32)
      ≡ c.dependent_frame_index
  joined = omega (
    arith,
    ok.frame,
    join_words_lem (c.dependent_frame_index % 2 ^ 32) (c.dependent_frame_index / 2 ^ 32 % 2 ^ 32)
        (omega arith) (omega arith),
  )

  ReadBack-body :
      ReadBack hack
        (put c.object_id 13
          >> put c.owner_net_id 16
          >> put_creation c
          >> put (wire_uniqifier c) 16
          >> put (c.dependent_frame_index / 2 ^ 32 % 2 ^ 32) 32
          >> put (c.dependent_frame_index % 2 ^ 32) 32
          >> put c.timestamp 32
          >> put (length c.blob % 2 ^ 32) 12
          >> put_blob c.blob)
        (width hack 13
          + (16 + (creation_width c + (16 + (32 + (32 + (32 + (12 + length c.blob * 8))))))))
        (downlink_clone (c.sync_type == Rec.create))
        (clone (as_downlink c))
  unfolding downlink_clone
  ReadBack-body =
      let r : DownlinkRecord = clone (as_downlink c) in
      let size : length c.blob % 2 ^ 32 ≡ length c.blob = omega (arith, ok.short) in
      rw size (
        ReadBack-bind hack _ _ _ _ (get 13) _ c.object_id r (ReadBack-id hack c.object_id ok.id) (
          ReadBack-bind hack _ _ _ _ (get 16) _ c.owner_net_id r
            (ReadBack-16 hack c.owner_net_id ok.owner)
            (ReadBack-bind hack _ _ _ _ (downlink_creation (c.sync_type == Rec.create)) _
              ((as_downlink c).entity_type, (as_downlink c).creation_token) r ReadBack-creation
              (ReadBack-bind hack _ _ _ _ (get 16) _ (wire_uniqifier c) r
                (ReadBack-16 hack (wire_uniqifier c) wire_uniqifier-lt)
                (ReadBack-bind hack _ _ _ _ (get 32) _ (c.dependent_frame_index / 2 ^ 32 % 2 ^ 32) r
                  (ReadBack-32 hack _ (omega arith))
                  (ReadBack-bind hack _ _ _ _ (get 32) _ (c.dependent_frame_index % 2 ^ 32) r
                    (ReadBack-32 hack _ (omega arith))
                    (ReadBack-bind hack _ _ _ _ (get 32) _ c.timestamp r
                      (ReadBack-32 hack c.timestamp ok.stamp)
                      (ReadBack-bind hack _ _ _ _ (get 12) _ (length c.blob) r
                        (ReadBack-field hack (length c.blob) 12 (omega arith) ok.short)
                        (rw joined (
                          ReadBack-map hack (put_blob c.blob) (length c.blob * 8)
                            (get_blob (length c.blob)) _ c.blob
                            (ReadBack-blob hack c.blob ok.bytes)))))))))))

  read_downlink-clone : read_downlink c.sync_type ≡ downlink_clone (c.sync_type == Rec.create)
  unfolding read_downlink
  read_downlink-clone =
      let known : ((c.sync_type == Rec.create) || (c.sync_type == Rec.sync)) ≡ true =
        ground (arith, ok.kind) in
      rw known refl

  kind-lt : c.sync_type < 2 ^ 3
  kind-lt = ground (arith, ok.kind)

  pub ReadBack-clone :
      ReadBack hack
        (write_outbound_clone c)
        (clone_width hack c)
        next_downlink
        (clone (as_downlink c))
  unfolding write_outbound_clone
  ReadBack-clone =
      ReadBack-bind hack (put c.sync_type 3) _ 3 _ (get 3) read_downlink c.sync_type
        (clone (as_downlink c)) (ReadBack-field hack c.sync_type 3 (omega arith) kind-lt)
        (rw read_downlink-clone ReadBack-body)

  -- A clone record written by the server is what the client reads at that place, with the
  -- uniqifier as it was sent, if the record has every field in range and fits in the buffer; the
  -- buffer is left as the write left it.
  pub read_downlink-write_outbound_clone :
      (b : MessageBuffer)
      → IsValid b
      → b.length_hack ≡ hack
      → b.cur_bit + clone_width hack c ≤ b.max_bit
      → let w = write_outbound_clone c b in
        (w.1 ≡ true)
        × (next_downlink (set_current_bit w.0 b.cur_bit) ≡ (w.0, some (clone (as_downlink c))))
  read_downlink-write_outbound_clone =
      ReadBack-here hack (write_outbound_clone c) (clone_width hack c) next_downlink
        (clone (as_downlink c)) ReadBack-clone

module _ (hack : Bool) where
  read_downlink-remove : read_downlink Rec.remove ≡ downlink_remove
  unfolding read_downlink
  read_downlink-remove = refl

  read_downlink-timestamp : read_downlink Rec.timestamp ≡ downlink_timestamp
  unfolding read_downlink
  read_downlink-timestamp = refl

  pub ReadBack-remove :
      (force_steal : Bool) (object_id uniqifier : ℕ)
      → object_id < 2 ^ width hack 13
      → uniqifier < 2 ^ 16
      → ReadBack hack
          (write_outbound_remove force_steal object_id uniqifier)
          (3 + (1 + (width hack 13 + 16)))
          next_downlink
          (remove force_steal object_id uniqifier)
  unfolding write_outbound_remove downlink_remove
  ReadBack-remove force_steal object_id uniqifier hi hu =
      let r : DownlinkRecord = remove force_steal object_id uniqifier in
      ReadBack-bind hack (put 3 3) (put_flag force_steal >> put object_id 13 >> put uniqifier 16) 3
        (1 + (width hack 13 + 16)) (get 3) read_downlink 3 r
        (ReadBack-field hack 3 3 (omega arith) (omega arith))
        (rw read_downlink-remove (
          ReadBack-bind hack _ _ _ _ get_flag _ force_steal r (ReadBack-flag hack force_steal) (
            ReadBack-bind hack _ _ _ _ (get 13) _ object_id r (ReadBack-id hack object_id hi) (
              ReadBack-map hack (put uniqifier 16) 16 (get 16) _ uniqifier
                (ReadBack-16 hack uniqifier hu)))))

  pub ReadBack-timestamp :
      (t : ℕ)
      → t < 2 ^ 64
      → ReadBack hack (write_outbound_timestamp t) 67 next_downlink (timestamp t)
  unfolding write_outbound_timestamp downlink_timestamp
  ReadBack-timestamp t h =
      let low = t % 2 ^ 32 in
      let high = t / 2 ^ 32 % 2 ^ 32 in
      let joined : join_words low high ≡ t =
        omega (arith, join_words_lem low high (omega arith) (omega arith)) in
      ReadBack-bind hack (put 5 3) (put low 32 >> put high 32) 3 64 (get 3) read_downlink 5
        (timestamp t) (ReadBack-field hack 5 3 (omega arith) (omega arith))
        (rw read_downlink-timestamp (
          ReadBack-bind hack (put low 32) (put high 32) 32 32 (get 32)
            (λ l. get 32 >>= λ x. pure (timestamp (join_words l x))) low (timestamp t)
            (ReadBack-32 hack low (omega arith))
            (rw joined at (
              ReadBack-map {B = DownlinkRecord} hack (put high 32) 32 (get 32)
                (λ x. timestamp (join_words low x)) high (ReadBack-32 hack high (omega arith))))))
