-- ===== src/Rage/Clone.antt =====
-- The records of the clone streams, crates/baston-protocol/src/rage/clone.rs. A read of `n` bits
-- gives a number below 2 ^ n, so the casts `as u16` and `as u8` behind the reads change nothing.
pub mod Rec
pub mod Fields
pub mod RoundTrip
use baston.Rage.Clone.Rec
use baston.Prelude.{
  ℕ, ◌+◌, ◌-◌, ◌*◌, ◌/◌, ◌%◌, ◌^◌, Bool, true, false, ◌||◌, not, Option, none, some, List, [], ◌==◌,
  if◌then◌else◌, length, replicate, ◌∷◌,
}
use baston.Rage.Buffer.{MessageBuffer, read_bits, write_bits, read_bit, write_bit}
use baston.Rage.Buffer.Signed.{join_words}
use baston.Rage.Buffer.Monad.{Reader, Writer, ◌>>=◌, ◌>>◌, pure, fail}
use baston.Rage.Buffer.Fields.{put, get, put_nothing}

pub data NetObjEntityType : Type 0 where
  automobile bike boat door heli object ped pickup pickup_placement : NetObjEntityType
  plane submarine player trailer train : NetObjEntityType

abbrev pub entity_type_bits : ℕ
entity_type_bits = 4

-- `e as u8`
unfoldable pub code : NetObjEntityType → ℕ
code automobile = 0
code bike = 1
code boat = 2
code door = 3
code heli = 4
code object = 5
code ped = 6
code pickup = 7
code pickup_placement = 8
code plane = 9
code submarine = 10
code player = 11
code trailer = 12
code train = 13

unfoldable pub from_u8 : ℕ → Option NetObjEntityType
from_u8 v =
    if v == 0
    then some automobile
    else if v == 1
    then some bike
    else if v == 2
    then some boat
    else if v == 3
    then some door
    else if v == 4
    then some heli
    else if v == 5
    then some object
    else if v == 6
    then some ped
    else if v == 7
    then some pickup
    else if v == 8
    then some pickup_placement
    else if v == 9
    then some plane
    else if v == 10
    then some submarine
    else if v == 11
    then some player
    else if v == 12
    then some trailer
    else if v == 13
    then some train
    else none

unfoldable pub is_vehicle : NetObjEntityType → Bool
is_vehicle automobile = true
is_vehicle bike = true
is_vehicle boat = true
is_vehicle heli = true
is_vehicle plane = true
is_vehicle submarine = true
is_vehicle trailer = true
is_vehicle train = true
is_vehicle _ = false

pub record InboundClone : Type 0 where
  pub is_create : Bool
  pub object_id : ℕ
  pub uniqifier : ℕ
  pub entity_type : Option NetObjEntityType
  pub creation_token : ℕ
  pub blob : List ℕ

pub data InboundRecord : Type 0 where
  clone : InboundClone → InboundRecord
  remove : (object_id uniqifier : ℕ) → InboundRecord
  takeover : (target_client object_id : ℕ) → InboundRecord
  timestamp : ℕ → InboundRecord
  index : ℕ → InboundRecord

-- `vec![0u8; length]`, filled by `read_bits` unless it is empty.
unfoldable pub get_blob : ℕ → Reader (List ℕ)
get_blob length b =
    if length == 0
    then (b, some [])
    else let r = read_bits b (replicate length 0) (length * 8) in
      if r.1.1 then (r.0, some r.1.0) else (r.0, none)

-- `buf.read_bit() != 0`
unfoldable pub get_flag : Reader Bool
get_flag b = let r = read_bit b in (r.0, some (not (r.1 == 0)))

-- What a record of kind `create` has behind its ids, in the order of the client.
unfoldable pub inbound_creation : Bool → Reader (Option NetObjEntityType × ℕ)
inbound_creation false = pure (none, 0)
inbound_creation true = do
  token ← get 32
  ty_raw ← get entity_type_bits
  pure (from_u8 ty_raw, token)

unfoldable pub inbound_clone : Bool → Reader InboundRecord
inbound_clone is_create = do
  uniqifier ← get 16
  object_id ← get 13
  creation ← inbound_creation is_create
  length ← get 12
  blob ← get_blob length
  pure (
      clone (record {
        is_create = is_create;
        object_id = object_id;
        uniqifier = uniqifier;
        entity_type = creation.0;
        creation_token = creation.1;
        blob = blob;
      }))

unfoldable pub inbound_remove : Reader InboundRecord
inbound_remove = do object_id ← get 13; uniqifier ← get 16; pure (remove object_id uniqifier)

unfoldable pub inbound_takeover : Reader InboundRecord
inbound_takeover = do target ← get 16; object_id ← get 13; pure (takeover target object_id)

unfoldable pub read_inbound : ℕ → Reader InboundRecord
read_inbound ty =
    if (ty == Rec.create) || (ty == Rec.sync)
    then inbound_clone (ty == Rec.create)
    else if ty == Rec.remove
    then inbound_remove
    else if ty == Rec.takeover
    then inbound_takeover
    else if ty == Rec.timestamp
    then (do t ← get 32; pure (timestamp t))
    else if ty == Rec.index
    then (do i ← get 32; pure (index i))
    else fail

pub record OutboundClone : Type 0 where
  pub sync_type : ℕ
  pub object_id : ℕ
  pub owner_net_id : ℕ
  pub entity_type : Option NetObjEntityType
  pub creation_token : ℕ
  pub uniqifier : ℕ
  pub dependent_frame_index : ℕ
  pub timestamp : ℕ
  pub first_frame_update : Bool
  pub blob : List ℕ

pub record DownlinkClone : Type 0 where
  pub is_create : Bool
  pub object_id : ℕ
  pub owner_net_id : ℕ
  pub entity_type : Option NetObjEntityType
  pub creation_token : ℕ
  pub uniqifier : ℕ
  pub dependent_frame_index : ℕ
  pub timestamp : ℕ
  pub blob : List ℕ

pub data DownlinkRecord : Type 0 where
  clone : DownlinkClone → DownlinkRecord
  remove : (force_steal : Bool) → (object_id uniqifier : ℕ) → DownlinkRecord
  timestamp : ℕ → DownlinkRecord

-- `c.entity_type.map(|e| e as u8).unwrap_or(0)`
unfoldable pub entity_code : Option NetObjEntityType → ℕ
entity_code none = 0
entity_code (some e) = code e

-- `!c.uniqifier` on a `u16`
unfoldable pub wire_uniqifier : OutboundClone → ℕ
wire_uniqifier c = if c.first_frame_update then 2 ^ 16 - 1 - c.uniqifier else c.uniqifier

unfoldable pub put_blob : List ℕ → Writer
put_blob [] = put_nothing
put_blob (x ∷ xs) = λ b. write_bits b (x ∷ xs) (length (x ∷ xs) * 8)

unfoldable pub put_flag : Bool → Writer
put_flag flag b = write_bit b flag

unfoldable pub put_creation : OutboundClone → Writer
put_creation c =
    if c.sync_type == Rec.create
    then put (entity_code c.entity_type) entity_type_bits >> put c.creation_token 32
    else put_nothing

unfoldable pub write_outbound_clone : OutboundClone → Writer
write_outbound_clone c =
    put c.sync_type 3
    >> put c.object_id 13
    >> put c.owner_net_id 16
    >> put_creation c
    >> put (wire_uniqifier c) 16
    >> put (c.dependent_frame_index / 2 ^ 32 % 2 ^ 32) 32
    >> put (c.dependent_frame_index % 2 ^ 32) 32
    >> put c.timestamp 32
    >> put (length c.blob % 2 ^ 32) 12
    >> put_blob c.blob

unfoldable pub downlink_creation : Bool → Reader (Option NetObjEntityType × ℕ)
downlink_creation false = pure (none, 0)
downlink_creation true = do ety ← get entity_type_bits; token ← get 32; pure (from_u8 ety, token)

unfoldable pub downlink_clone : Bool → Reader DownlinkRecord
downlink_clone is_create = do
  object_id ← get 13
  owner_net_id ← get 16
  creation ← downlink_creation is_create
  uniqifier ← get 16
  high ← get 32
  low ← get 32
  stamp ← get 32
  length ← get 12
  blob ← get_blob length
  pure (
      clone (record {
        is_create = is_create;
        object_id = object_id;
        owner_net_id = owner_net_id;
        entity_type = creation.0;
        creation_token = creation.1;
        uniqifier = uniqifier;
        dependent_frame_index = join_words low high;
        timestamp = stamp;
        blob = blob;
      }))

unfoldable pub downlink_remove : Reader DownlinkRecord
downlink_remove = do
  force_steal ← get_flag
  object_id ← get 13
  uniqifier ← get 16
  pure (remove force_steal object_id uniqifier)

unfoldable pub downlink_timestamp : Reader DownlinkRecord
downlink_timestamp = do low ← get 32; high ← get 32; pure (timestamp (join_words low high))

unfoldable pub read_downlink : ℕ → Reader DownlinkRecord
read_downlink ty =
    if (ty == Rec.create) || (ty == Rec.sync)
    then downlink_clone (ty == Rec.create)
    else if ty == Rec.remove
    then downlink_remove
    else if ty == Rec.timestamp
    then downlink_timestamp
    else fail

unfoldable pub write_outbound_remove : Bool → ℕ → ℕ → Writer
write_outbound_remove force_steal object_id uniqifier =
    put Rec.remove 3 >> put_flag force_steal >> put object_id 13 >> put uniqifier 16

unfoldable pub write_outbound_timestamp : ℕ → Writer
write_outbound_timestamp t =
    put Rec.timestamp 3 >> put (t % 2 ^ 32) 32 >> put (t / 2 ^ 32 % 2 ^ 32) 32

unfoldable pub write_end : Writer
write_end = put Rec.end 3

unfoldable pub write_ack_record : ℕ → ℕ → ℕ → Writer
write_ack_record ty object_id uniqifier = put ty 3 >> put object_id 13 >> put uniqifier 16

pub record AckRecord : Type 0 where
  pub ty : ℕ
  pub object_id : ℕ
  pub uniqifier : ℕ

-- `read_ack_record` behind its test on the type.
unfoldable pub ack_body : ℕ → Reader AckRecord
ack_body ty = do
  object_id ← get 13
  uniqifier ← get 16
  pure (record { ty = ty; object_id = object_id; uniqifier = uniqifier })

unfoldable pub read_ack_record : ℕ → Reader AckRecord
read_ack_record ty =
    if (ty == Rec.create) || (ty == Rec.sync) || (ty == Rec.remove) then ack_body ty else fail
