-- ===== src/Udp/Laws.antt =====
-- Packets that are built are taken apart again into what they were built from.
use baston.Prelude.Bytes.{to_le, from_le, length-to_le, from_le-to_le}
use baston.Prelude.Bits.{bit_and-ones}
use baston.Prelude.{
  sym, drop-drop, bit_and, append-nil, ap, ◌∙◌, ℕ, ◌+◌, ◌%◌, ◌^◌, ◌<◌, ◌≡◌, arith, some, List, [],
  ◌++◌, length, take, drop, length-append, take-append, drop-append,
}
use baston.Udp.{
  hash_rage_string, read_message_type, msg_time_sync, msg_time_sync_req, msg_route,
  parse_client_route, build_server_route, TimeSyncRequest, parse_time_sync_request,
  build_time_sync_request, build_time_sync_response,
}

-- A little-endian field at the front of a byte string.
module _ (n v : ℕ) (rest : List ℕ) where
  pub take-field : take n (to_le n v ++ rest) ≡ to_le n v
  take-field = rw (length-to_le n v) at (take-append (to_le n v) rest)

  pub drop-field : drop n (to_le n v ++ rest) ≡ rest
  drop-field = rw (length-to_le n v) at (drop-append (to_le n v) rest)

  pub length-field : length (to_le n v ++ rest) ≡ n + length rest
  length-field = omega (arith, length-append (to_le n v) rest, length-to_le n v)

  pub read-field : v < 256 ^ n → from_le (take n (to_le n v ++ rest)) ≡ v
  read-field h = rw take-field (from_le-to_le n v h)

pub hash_rage_string-lt : (bytes : List ℕ) → hash_rage_string bytes < 256 ^ 4
unfolding hash_rage_string
hash_rage_string-lt bytes = omega arith

-- The type field at the front of a packet is read off, and what follows is the payload.
read_message_type-field :
    (ty : ℕ) (payload : List ℕ)
    → ty < 256 ^ 4
    → read_message_type (to_le 4 ty ++ payload) ≡ some (ty, payload)
unfolding read_message_type
read_message_type-field ty payload h =
    ground (arith, read-field 4 ty payload h, drop-field 4 ty payload, length-field 4 ty payload)

-- The payload of a clock request that the client builds is parsed back into the request.
parse_time_sync_request-build :
    (r : TimeSyncRequest)
    → r.request_time < 2 ^ 32
    → r.request_sequence < 2 ^ 32
    → (payload : List ℕ) × (read_message_type (build_time_sync_request r)
        ≡ some (msg_time_sync_req, payload))
      × (parse_time_sync_request payload ≡ some r)
unfolding build_time_sync_request parse_time_sync_request msg_time_sync_req
parse_time_sync_request-build r ht hs =
    let last = to_le 4 r.request_sequence in
    let payload = to_le 4 r.request_time ++ last in
    (
      payload,
      read_message_type-field _ payload (hash_rage_string-lt _),
      ground (
        arith,
        read-field 4 r.request_time last (omega arith),
        drop-field 4 r.request_time last,
        read-field 4 r.request_sequence [] (omega arith),
        append-nil last,
        length-field 4 r.request_time last,
        length-to_le 4 r.request_sequence,
      ),
    )

-- The clock response echoes the request, so that its payload parses as the request itself, and
-- carries the low 32 bits of the server's clock behind it.
pub build_time_sync_response_lem :
    (r : TimeSyncRequest) (now : ℕ)
    → r.request_time < 2 ^ 32
    → r.request_sequence < 2 ^ 32
    → (payload : List ℕ) × (read_message_type (build_time_sync_response r now)
        ≡ some (msg_time_sync, payload))
      × (parse_time_sync_request payload ≡ some r)
      × (from_le (take 4 (drop 8 payload)) ≡ now % 2 ^ 32)
unfolding build_time_sync_response parse_time_sync_request msg_time_sync
build_time_sync_response_lem r now ht hs =
    let clock = bit_and now 0xFFFF_FFFF % 2 ^ 32 in
    let last = to_le 4 clock in
    let behind = to_le 4 r.request_sequence ++ last in
    let payload = to_le 4 r.request_time ++ behind in
    let second : drop 8 payload ≡ last =
      sym (drop-drop 4 4 payload)
      ∙ ap (drop 4) (drop-field 4 r.request_time behind)
      ∙ drop-field 4 r.request_sequence last in
    let clock_value : clock ≡ now % 2 ^ 32 = omega (arith, bit_and-ones 32 now) in
    let clock_read : from_le (take 4 last) ≡ clock =
      rw append-nil at (read-field 4 clock [] (omega arith)) in
    (
      payload,
      read_message_type-field _ payload (hash_rage_string-lt _),
      ground (
        arith,
        read-field 4 r.request_time behind (omega arith),
        drop-field 4 r.request_time behind,
        read-field 4 r.request_sequence last (omega arith),
        length-field 4 r.request_time behind,
        length-field 4 r.request_sequence last,
      ),
      rw second (clock_read ∙ clock_value),
    )

-- A packet relayed to a client has the route type; read as a route it names the sender and hands
-- over the bytes unchanged, whatever their number.
pub parse_client_route-build_server_route :
    (sender : ℕ) (tail : List ℕ)
    → sender < 2 ^ 16
    → (payload : List ℕ) × (read_message_type (build_server_route sender tail)
        ≡ some (msg_route, payload))
      × (parse_client_route payload ≡ some (record { target_net_id = sender; tail = tail }))
unfolding build_server_route parse_client_route msg_route
parse_client_route-build_server_route sender tail h =
    let size = length tail % 2 ^ 16 in
    let behind = to_le 2 size ++ tail in
    let payload = to_le 2 sender ++ behind in
    let bytes : drop 4 payload ≡ tail =
      sym (drop-drop 2 2 payload)
      ∙ ap (drop 2) (drop-field 2 sender behind)
      ∙ drop-field 2 size tail in
    (
      payload,
      read_message_type-field _ payload (hash_rage_string-lt _),
      ground (
        arith,
        read-field 2 sender behind (omega arith),
        bytes,
        length-field 2 sender behind,
        length-field 2 size tail,
      ),
    )
