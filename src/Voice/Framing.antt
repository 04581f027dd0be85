-- ===== src/Voice/Framing.antt =====
-- Frames of the voice server's control channel, crates/baston-voice/src/framing.rs: a type, a length
-- and a payload, which protobuf encodes and decodes.
pub mod Laws
use baston.Prelude.Bytes.{to_be, from_be}
use baston.Prelude.{
  ℕ, ◌+◌, ◌%◌, ◌^◌, ◌-◌, Option, none, some, List, [], ◌∷◌, ◌++◌, ltb, ◌==◌, if◌then◌else◌, length,
  take, drop,
}

abbrev pub preamble_size : ℕ
preamble_size = 6

abbrev pub max_msgsize : ℕ
max_msgsize = 8192 - preamble_size

pub data MessageType : Type 0 where
  version : MessageType
  udp_tunnel : MessageType
  authenticate : MessageType
  ping : MessageType
  reject : MessageType
  server_sync : MessageType
  channel_remove : MessageType
  channel_state : MessageType
  user_remove : MessageType
  user_state : MessageType
  ban_list : MessageType
  text_message : MessageType
  permission_denied : MessageType
  acl : MessageType
  query_users : MessageType
  crypt_setup : MessageType
  context_action_modify : MessageType
  context_action : MessageType
  user_list : MessageType
  voice_target : MessageType
  permission_query : MessageType
  codec_version : MessageType
  user_stats : MessageType
  request_blob : MessageType
  server_config : MessageType
  suggest_config : MessageType

unfoldable pub from_u16 : ℕ → Option MessageType
from_u16 v =
    if v == 0
    then some version
    else if v == 1
    then some udp_tunnel
    else if v == 2
    then some authenticate
    else if v == 3
    then some ping
    else if v == 4
    then some reject
    else if v == 5
    then some server_sync
    else if v == 6
    then some channel_remove
    else if v == 7
    then some channel_state
    else if v == 8
    then some user_remove
    else if v == 9
    then some user_state
    else if v == 10
    then some ban_list
    else if v == 11
    then some text_message
    else if v == 12
    then some permission_denied
    else if v == 13
    then some acl
    else if v == 14
    then some query_users
    else if v == 15
    then some crypt_setup
    else if v == 16
    then some context_action_modify
    else if v == 17
    then some context_action
    else if v == 18
    then some user_list
    else if v == 19
    then some voice_target
    else if v == 20
    then some permission_query
    else if v == 21
    then some codec_version
    else if v == 22
    then some user_stats
    else if v == 23
    then some request_blob
    else if v == 24
    then some server_config
    else if v == 25
    then some suggest_config
    else none

-- The discriminant.
unfoldable pub tag : MessageType → ℕ
tag version = 0
tag udp_tunnel = 1
tag authenticate = 2
tag ping = 3
tag reject = 4
tag server_sync = 5
tag channel_remove = 6
tag channel_state = 7
tag user_remove = 8
tag user_state = 9
tag ban_list = 10
tag text_message = 11
tag permission_denied = 12
tag acl = 13
tag query_users = 14
tag crypt_setup = 15
tag context_action_modify = 16
tag context_action = 17
tag user_list = 18
tag voice_target = 19
tag permission_query = 20
tag codec_version = 21
tag user_stats = 22
tag request_blob = 23
tag server_config = 24
tag suggest_config = 25

pub data FrameError : Type 0 where
  too_large : ℕ → FrameError
  unknown_type : ℕ → FrameError
  decode_failed : MessageType → FrameError

pub data Result (A : Type 0) : Type 0 where
  ok : A → Result A
  err : FrameError → Result A

pub record Preamble : Type 0 where
  pub ty : ℕ
  pub len : ℕ

unfoldable pub parse : List ℕ → Option Preamble
parse buf =
    if ltb (length buf) preamble_size
    then none
    else some (record { ty = from_be 0 (take 2 buf); len = from_be 0 (take 4 (drop 2 buf)) })

unfoldable pub frame_len : Preamble → ℕ
frame_len p = preamble_size + p.len

unfoldable pub or_failed : {M : Type 0} → MessageType → Option M → Result M
or_failed ty none = err (decode_failed ty)
or_failed ty (some msg) = ok msg

-- Protobuf: `prost::Message` of one type of messages.
module _ {M : Type 0} (encode_message : M → List ℕ) where
  unfoldable pub encode : MessageType → M → Result (List ℕ)
  encode ty msg =
      let payload = encode_message msg in
      if ltb max_msgsize (length payload)
      then err (too_large (length payload))
      else ok (to_be 2 (tag ty) ++ (to_be 4 (length payload % 2 ^ 32) ++ payload))

module _ {M : Type 0} (decode_message : List ℕ → Option M) where
  unfoldable pub decode : MessageType → List ℕ → Result M
  decode ty payload = or_failed ty (decode_message payload)
