-- ===== src/Peer/Connection/Dispatch.antt =====
-- handlePeerConnection of ldrlib/networking.go: what each type of message leads to.
use ld_routing.Base.{Option, none, some, ◌++◌, ◌==◌, if◌then◌else◌}
use ld_routing.Base.Run.{Run, ok, err, panic, fatal, ◌>>=◌, or_panic}
use ld_routing.Base.Bytes.{Bytes, bytes_eq, slice, be}
use ld_routing.Wire.Types.{Route}
use ld_routing.Db.{zero_address, get_local_address}
use ld_routing.Db.Addresses.{get_dest_conn}
use ld_routing.Db.Lnd.{Lnd}
use ld_routing.Message.{
  table_request_type, table_response_type, forward_route_type, process_forward_route_message,
  process_table_request, process_table_response,
}
use ld_routing.Route.{add_hop_to_route, send_route_to_sender}
use ld_routing.Peer.Cipher.{Aes}
use ld_routing.Peer.Connection.{Node, set_conn, forward_route}

-- What a message leads to: a response or none, or the return of the handler.
pub data Handled : Type 0 where
  handled : Option Bytes → Node → Handled
  stops : Handled

unfoldable pub handle_table_request : Node → Bytes → Run Handled
handle_table_request node message = elim (process_table_request node.db message) [
  | ok response ↦ ok (handled (some response) node)
  | err e ↦ ok stops
  | panic ↦ panic
  | fatal ↦ fatal
]

unfoldable pub handle_table_response : Lnd → Bytes → Node → Bytes → Run Handled
handle_table_response ln_client peer_pub_key node message =
    elim (process_table_response message node.db peer_pub_key ln_client) [
      | ok db ↦ ok (handled none (record node { db = db }))
      | err e ↦ ok stops
      | panic ↦ panic
      | fatal ↦ fatal
    ]

-- The route is written to the connection of its token.
unfoldable pub answer_route : Route → Node → Run Node
answer_route route node = do
  r ← or_panic (get_dest_conn node.db route.token)
  (bytes, db) ← send_route_to_sender node.db route
  let conn = node.conn_infos r
  ok (set_conn r (record conn { sent = conn.sent ++ bytes }) (record node { db = db }))

-- An error of addHopToRoute is only logged: the route goes on to the zero address as it is.
unfoldable pub pass_route_on : Aes → Lnd → Route → Node → Run Node
pass_route_on aes ln_client route node = elim (add_hop_to_route ln_client node.db route) [
  | ok (local_hop, route') ↦ forward_route aes route' local_hop node
  | err e ↦ forward_route aes route zero_address node
  | panic ↦ panic
  | fatal ↦ fatal
]

-- An error of processForwardRouteMessage is only logged: the route is nil, and its use panics.
unfoldable pub handle_forward_route : Aes → Lnd → Node → Bytes → Run Handled
handle_forward_route aes ln_client node message = elim (process_forward_route_message message) [
  | ok route ↦ do
    node' ←
        if bytes_eq route.destination (get_local_address node.db)
        then answer_route route node
        else pass_route_on aes ln_client route node
    ok (handled none node')
  | err e ↦ panic
  | panic ↦ panic
  | fatal ↦ fatal
]

-- The branches on the type of a message.
unfoldable pub handle_message : Aes → Lnd → Bytes → Node → Bytes → Run Handled
unfolding handle_table_request handle_table_response handle_forward_route
handle_message aes ln_client peer_pub_key node message = do
  message_type ← slice 0 2 message
  if be message_type == table_request_type
      then handle_table_request node message
      else if be message_type == table_response_type
      then handle_table_response ln_client peer_pub_key node message
      else if be message_type == forward_route_type
      then handle_forward_route aes ln_client node message
      else ok stops
