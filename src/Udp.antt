-- ===== src/Udp.antt =====
-- The game transport's messages, crates/baston-protocol/src/udp: the message-type hash, and the
-- route, clock and session-host packets.
pub mod Laws
mod Tests
use Prim.Native.Char.{code}
use Prim.Native.String
use Prim.Native.String.{String}
use baston.Prelude.Bytes.{to_le, from_le}
use baston.Prelude.{
  ℕ, ◌+◌, ◌*◌, ◌/◌, ◌%◌, ◌^◌, bit_and, bit_xor, Option, none, some, List, [], ◌∷◌, ◌++◌,
  if◌then◌else◌, length, leb, ltb, take, drop,
}

abbrev pub u32 : ℕ → ℕ
u32 n = n % 2 ^ 32

abbrev pub codes : String → List ℕ
codes String.[] = []
codes (String.◌∷◌ c s) = code c ∷ codes s

-- The loop of `hash_rage_string`.
unfoldable pub hash_loop : ℕ → List ℕ → ℕ
hash_loop hash [] = hash
hash_loop hash (b ∷ bytes) =
    let added = u32 (hash + b) in
    let spread = u32 (added + u32 (added * 2 ^ 10)) in
    hash_loop (bit_xor spread (spread / 2 ^ 6)) bytes

unfoldable pub hash_rage_string : List ℕ → ℕ
unfolding hash_loop
hash_rage_string bytes =
    let hash = hash_loop 0 bytes in
    let spread = u32 (hash + u32 (hash * 2 ^ 3)) in
    let mixed = bit_xor spread (spread / 2 ^ 11) in u32 (mixed + u32 (mixed * 2 ^ 15))

unfoldable pub msg_connect : ℕ
msg_connect = 1

unfoldable pub msg_time_sync_req : ℕ
msg_time_sync_req = hash_rage_string (codes "msgTimeSyncReq")

unfoldable pub msg_time_sync : ℕ
msg_time_sync = hash_rage_string (codes "msgTimeSync")

unfoldable pub msg_route : ℕ
msg_route = hash_rage_string (codes "msgRoute")

unfoldable pub msg_i_host : ℕ
msg_i_host = hash_rage_string (codes "msgIHost")

-- `read_message_type`
unfoldable pub read_message_type : List ℕ → Option (ℕ × List ℕ)
read_message_type packet =
    if ltb (length packet) 4 then none else some (from_le (take 4 packet), drop 4 packet)

unfoldable pub parse_i_host : List ℕ → Option ℕ
parse_i_host payload = if leb 4 (length payload) then some (from_le (take 4 payload)) else none

unfoldable pub build_server_i_host : ℕ → ℕ → List ℕ
build_server_i_host net_id base_num = to_le 4 msg_i_host ++ (to_le 2 net_id ++ to_le 4 base_num)

pub record ClientRoute : Type 0 where
  pub target_net_id : ℕ
  pub tail : List ℕ

-- `parse_client_route`: the length field is skipped, the payload is the tail of the stream.
unfoldable pub parse_client_route : List ℕ → Option ClientRoute
parse_client_route payload =
    if ltb (length payload) 4
    then none
    else some (record { target_net_id = from_le (take 2 payload); tail = drop 4 payload })

-- `data.len() as u16` cuts the length.
unfoldable pub build_server_route : ℕ → List ℕ → List ℕ
build_server_route sender_net_id tail =
    to_le 4 msg_route ++ (to_le 2 sender_net_id ++ (to_le 2 (length tail % 2 ^ 16) ++ tail))

pub record TimeSyncRequest : Type 0 where
  pub request_time : ℕ
  pub request_sequence : ℕ

unfoldable pub parse_time_sync_request : List ℕ → Option TimeSyncRequest
parse_time_sync_request payload =
    if ltb (length payload) 8
    then none
    else some (record {
      request_time = from_le (take 4 payload);
      request_sequence = from_le (take 4 (drop 4 payload));
    })

unfoldable pub build_time_sync_request : TimeSyncRequest → List ℕ
build_time_sync_request request =
    to_le 4 msg_time_sync_req ++ (to_le 4 request.request_time ++ to_le 4 request.request_sequence)

-- The server clock is cut to 32 bits.
unfoldable pub build_time_sync_response : TimeSyncRequest → ℕ → List ℕ
build_time_sync_response request server_time_ms =
    to_le 4 msg_time_sync
    ++ (to_le 4 request.request_time
        ++ (to_le 4 request.request_sequence
            ++ to_le 4 (bit_and server_time_ms 0xFFFF_FFFF % 2 ^ 32)))
