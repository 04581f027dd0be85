-- ===== src/Voice/Framing/Laws.antt =====
-- A frame that is encoded is read back.
use baston.Prelude.Bytes.{to_be, from_be}
use baston.Prelude.{
  refl, ℕ, suc, ◌+◌, ◌%◌, ◌^◌, ◌≤◌, ◌<◌, ◌≡◌, arith, true, false, Option, some, List, ◌++◌, ltb,
  length, take, drop, take-append,
}
use baston.Voice.Framing.{
  MessageType, from_u16, tag, ok, err, too_large, parse, frame_len, preamble_size, max_msgsize,
  or_failed, encode, decode, version, udp_tunnel, authenticate, ping, reject, server_sync,
  channel_remove, channel_state, user_remove, user_state, ban_list, text_message, permission_denied,
  acl, query_users, crypt_setup, context_action_modify, context_action, user_list, voice_target,
  permission_query, codec_version, user_stats, request_blob, server_config, suggest_config,
}

from_u16-tag : (ty : MessageType) → from_u16 (tag ty) ≡ some ty
unfolding from_u16 tag
from_u16-tag version = refl
from_u16-tag udp_tunnel = refl
from_u16-tag authenticate = refl
from_u16-tag ping = refl
from_u16-tag reject = refl
from_u16-tag server_sync = refl
from_u16-tag channel_remove = refl
from_u16-tag channel_state = refl
from_u16-tag user_remove = refl
from_u16-tag user_state = refl
from_u16-tag ban_list = refl
from_u16-tag text_message = refl
from_u16-tag permission_denied = refl
from_u16-tag acl = refl
from_u16-tag query_users = refl
from_u16-tag crypt_setup = refl
from_u16-tag context_action_modify = refl
from_u16-tag context_action = refl
from_u16-tag user_list = refl
from_u16-tag voice_target = refl
from_u16-tag permission_query = refl
from_u16-tag codec_version = refl
from_u16-tag user_stats = refl
from_u16-tag request_blob = refl
from_u16-tag server_config = refl
from_u16-tag suggest_config = refl

tag-lt : (ty : MessageType) → tag ty < 26
unfolding tag
tag-lt version = omega arith
tag-lt udp_tunnel = omega arith
tag-lt authenticate = omega arith
tag-lt ping = omega arith
tag-lt reject = omega arith
tag-lt server_sync = omega arith
tag-lt channel_remove = omega arith
tag-lt channel_state = omega arith
tag-lt user_remove = omega arith
tag-lt user_state = omega arith
tag-lt ban_list = omega arith
tag-lt text_message = omega arith
tag-lt permission_denied = omega arith
tag-lt acl = omega arith
tag-lt query_users = omega arith
tag-lt crypt_setup = omega arith
tag-lt context_action_modify = omega arith
tag-lt context_action = omega arith
tag-lt user_list = omega arith
tag-lt voice_target = omega arith
tag-lt permission_query = omega arith
tag-lt codec_version = omega arith
tag-lt user_stats = omega arith
tag-lt request_blob = omega arith
tag-lt server_config = omega arith
tag-lt suggest_config = omega arith

from_be-to_be_2 : (v : ℕ) → v < 2 ^ 16 → from_be 0 (to_be 2 v) ≡ v
unfolding from_be to_be
from_be-to_be_2 v h = omega arith

from_be-to_be_4 : (v : ℕ) → v < 2 ^ 32 → from_be 0 (to_be 4 v) ≡ v
unfolding from_be to_be
from_be-to_be_4 v h = omega arith

abbrev frame : ℕ → List ℕ → List ℕ
frame t payload = to_be 2 t ++ (to_be 4 (length payload) ++ payload)

parse-frame :
    (t : ℕ) (payload rest : List ℕ)
    → t < 2 ^ 16
    → length payload < 2 ^ 32
    → parse (frame t payload ++ rest) ≡ some (record { ty = t; len = length payload })
unfolding parse to_be
parse-frame t payload rest ht hl =
    let enough : ltb (length (frame t payload ++ rest)) preamble_size ≡ false = ground arith in
    let type_back : from_be 0 (to_be 2 t) ≡ t = from_be-to_be_2 t ht in
    let len_back : from_be 0 (to_be 4 (length payload)) ≡ length payload =
      from_be-to_be_4 (length payload) hl in
    rw (enough, type_back, len_back) refl

take-frame :
    (t : ℕ) (payload rest : List ℕ)
    → take (preamble_size + length payload) (frame t payload ++ rest) ≡ frame t payload
unfolding to_be
take-frame t payload rest =
    let behind : preamble_size + length payload
        ≡ suc (suc (suc (suc (suc (suc (length payload)))))) =
      omega arith in
    rw (behind, take-append payload rest) refl

drop-frame : (t : ℕ) (payload : List ℕ) → drop preamble_size (frame t payload) ≡ payload
unfolding to_be
drop-frame t payload = refl

module _ {M : Type 0} (encode_message : M → List ℕ) (decode_message : List ℕ → Option M) where
  -- A message whose payload is larger than the limit is refused. Any other is encoded to a frame that
  -- is read back whatever follows it: its type, its length, where it ends, and the message itself, if
  -- protobuf decodes what it encoded.
  pub decode-encode :
      (ty : MessageType) (msg : M) (rest : List ℕ)
      → decode_message (encode_message msg) ≡ some msg
      → let payload = encode_message msg in
        (max_msgsize < length payload
          → encode encode_message ty msg ≡ err (too_large (length payload)))
        × (length payload ≤ max_msgsize
            → (out : List ℕ) × (encode encode_message ty msg ≡ ok out)
              × (parse (out ++ rest) ≡ some (record { ty = tag ty; len = length payload }))
              × (from_u16 (tag ty) ≡ some ty)
              × (take (frame_len (record { ty = tag ty; len = length payload })) (out ++ rest)
                  ≡ out)
              × (decode decode_message ty (drop preamble_size out) ≡ ok msg))
  unfolding encode frame_len decode or_failed
  decode-encode ty msg rest inverse =
      let payload = encode_message msg in
      (
        λ big. let test : ltb max_msgsize (length payload) ≡ true = ground arith in rw test refl,
        λ small.
            let test : ltb max_msgsize (length payload) ≡ false = ground arith in
            let whole : length payload % 2 ^ 32 ≡ length payload = omega arith in
            let low = tag-lt ty in
            (
              frame (tag ty) payload,
              rw (test, whole) refl,
              parse-frame (tag ty) payload rest (omega (arith, low)) (omega arith),
              from_u16-tag ty,
              take-frame (tag ty) payload rest,
              rw (drop-frame (tag ty) payload, inverse) refl,
            ),
      )
