-- ===== src/Udp/Tests.antt =====
-- The theorems on the transport's messages at concrete inputs.
use baston.Prelude.{ℕ, ◌%◌, ◌^◌, ◌≡◌, arith, some, List, [], ◌∷◌}
use baston.Prelude.{take, drop}
use baston.Prelude.Bytes.{from_le}
use baston.Udp.{
  read_message_type, msg_time_sync, msg_route, parse_client_route, build_server_route,
  TimeSyncRequest, parse_time_sync_request, build_time_sync_response,
}
use baston.Udp.Laws.{build_time_sync_response_lem, parse_client_route-build_server_route}

abbrev request : TimeSyncRequest
request = record { request_time = 123_456; request_sequence = 7 }

build_time_sync_response_lem_example :
    (payload : List ℕ) × (read_message_type (build_time_sync_response request 0x1_2345_6789)
      ≡ some (msg_time_sync, payload))
    × (parse_time_sync_request payload ≡ some request)
    × (from_le (take 4 (drop 8 payload)) ≡ 0x1_2345_6789 % 2 ^ 32)
build_time_sync_response_lem_example =
    build_time_sync_response_lem request 0x1_2345_6789 (omega arith) (omega arith)

parse_client_route-build_server_route_example :
    (payload : List ℕ) × (read_message_type (build_server_route 7 (1 ∷ 2 ∷ 3 ∷ []))
      ≡ some (msg_route, payload))
    × (parse_client_route payload ≡ some (record { target_net_id = 7; tail = 1 ∷ 2 ∷ 3 ∷ [] }))
parse_client_route-build_server_route_example =
    parse_client_route-build_server_route 7 (1 ∷ 2 ∷ 3 ∷ []) (omega arith)
