-- ===== src/Message.antt =====
-- ldrlib/message.go: the messages that peers exchange.
pub mod Exchange
pub mod Untrusted
use ld_routing.Base.{ℕ, zero, suc, ◌+◌, ◌*◌, ◌%◌, ◌^◌, List, [], ◌∷◌, ◌++◌, ◌==◌, leb, length}
use ld_routing.Base.Run.{
  Run, ok, require, ◌>>=◌, ◌>>◌, invalid_forward_size, invalid_forward_type, starting_block_too_old,
  invalid_request_size, invalid_request_type, invalid_response_size, invalid_response_type,
}
use ld_routing.Base.Bytes.{Bytes, slice, put_be, be}
use ld_routing.Wire.Types.{Ref, RoutingEntry, Route}
use ld_routing.Wire.Codec.{
  routing_entry_to_destination, serialize_destination, deserialize_destination, serialize_route,
  deserialize_route,
}
use ld_routing.Db.{Db, genesis_block}
use ld_routing.Db.Routing.{get_last_routing_entries, add_new_destination_to_db}
use ld_routing.Db.Lnd.{Lnd}

abbrev pub table_request_type : ℕ
table_request_type = 0

abbrev pub table_response_type : ℕ
table_response_type = 1

abbrev pub forward_route_type : ℕ
forward_route_type = 2

abbrev pub message_type_size : ℕ
message_type_size = 2

abbrev pub table_request_header_size : ℕ
table_request_header_size = 8

abbrev pub table_response_header_size : ℕ
table_response_header_size = 2

abbrev pub forward_route_header_size : ℕ
forward_route_header_size = 24

abbrev pub destination_size : ℕ
destination_size = 12

unfoldable pub create_forward_route_message : Route → Bytes
create_forward_route_message route = put_be 2 forward_route_type ++ serialize_route route

unfoldable pub process_forward_route_message : Bytes → Run Route
process_forward_route_message message = do
  require (leb (message_type_size + forward_route_header_size) (length message))
      invalid_forward_size
  message_type ← slice 0 2 message
  require (be message_type == forward_route_type) invalid_forward_type
  rest ← slice 2 (length message) message
  deserialize_route rest

unfoldable pub create_table_request : ℕ → Run Bytes
create_table_request starting_block = do
  require (leb genesis_block starting_block) starting_block_too_old
  ok (put_be 2 table_request_type ++ put_be 8 starting_block)

-- The destinations of a table response, in the order of the entries.
unfoldable pub serialize_destinations : (Ref → RoutingEntry) → List Ref → Bytes
serialize_destinations cells [] = []
serialize_destinations cells (r ∷ rs) =
    serialize_destination (routing_entry_to_destination (cells r))
    ++ serialize_destinations cells rs

-- The number of entries is cut to 16 bits.
unfoldable pub process_table_request : Db → Bytes → Run Bytes
process_table_request db request = do
  require (length request == message_type_size + table_request_header_size) invalid_request_size
  request_type ← slice 0 2 request
  require (be request_type == table_request_type) invalid_request_type
  starting_block ← slice 2 10 request
  require (leb genesis_block (be starting_block)) starting_block_too_old
  let entries = get_last_routing_entries db (be starting_block)
  ok (
      put_be 2 table_response_type
      ++ (put_be 2 (length entries % 2 ^ 16) ++ serialize_destinations db.cells entries))

-- The loop over the entries of a response, `rounds` from round `n`.
unfoldable pub add_destinations : ℕ → ℕ → Bytes → Bytes → Lnd → Db → Run Db
add_destinations zero n response peer_pub_key ln_client db = ok db
add_destinations (suc rounds) n response peer_pub_key ln_client db = do
  serialized ← slice (4 + n * destination_size) (4 + (n + 1) * destination_size) response
  dest ← deserialize_destination serialized
  db' ← add_new_destination_to_db db dest peer_pub_key ln_client
  add_destinations rounds (n + 1) response peer_pub_key ln_client db'

unfoldable pub process_table_response : Bytes → Db → Bytes → Lnd → Run Db
process_table_response response db peer_pub_key ln_client = do
  require (leb (message_type_size + table_response_header_size) (length response))
      invalid_response_size
  response_type ← slice 0 2 response
  require (be response_type == table_response_type) invalid_response_type
  entries_count ← slice 2 4 response
  add_destinations (be entries_count) 0 response peer_pub_key ln_client db
