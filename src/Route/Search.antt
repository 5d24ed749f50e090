-- ===== src/Route/Search.antt =====
-- GetRouteManual and GetRouteAuto of ldrlib/routing.go, with ConnectToDestination and
-- ConnectToDestinationAuto of ldrlib/networking.go.
pub mod Answer
use ld_routing.Base.{
  Bool, false, get_elem?, Option, none, some, List, [], ◌∷◌, ◌++◌, ◌+◌, if◌then◌else◌,
}
use ld_routing.Base.Run.{Run, ok, require, ◌>>=◌, ◌>>◌, not_registered, or_panic}
use ld_routing.Base.Bytes.{Bytes}
use ld_routing.Wire.Types.{Route}
use ld_routing.Db.Addresses.{is_address_registered, get_address_node, add_dest_conn_to_db}
use ld_routing.Db.Lnd.{Lnd, get_node_ips}
use ld_routing.Route.{create_route, add_hop_to_route, receive_route_from_destination}
use ld_routing.Peer.Cipher.{Aes}
use ld_routing.Peer.Connection.{ConnInfo, Node, set_conn, forward_route}

-- The bytes of the two connection types, an int8.
abbrev pub peer_conn_type : Bytes
peer_conn_type = 0 ∷ []

abbrev pub destination_conn_type : Bytes
destination_conn_type = 1 ∷ []

-- `":" + DefaultPort`
abbrev pub default_port : Bytes
default_port = b':' ∷ b'8' ∷ b'6' ∷ b'9' ∷ b'5' ∷ []

-- A connection without a session, and what was written to it.
abbrev pub plain_conn : Bytes → ConnInfo
plain_conn sent = record {
  locked = false;
  session_key = [];
  base_iv = [];
  seq_number = [];
  sent = sent;
}

-- `dials` is whether net.Dial and the writes to its connection succeed; `none` is an error.
unfoldable pub connect_to_destination : (Bytes → Bool) → Bytes → Bytes → Node → Option Node
connect_to_destination dials ip_address token node =
    if dials ip_address
    then some (
        set_conn node.next_conn (plain_conn (destination_conn_type ++ token)) (record node {
          db = add_dest_conn_to_db node.db token node.next_conn;
          next_conn = node.next_conn + 1;
        }))
    else none

-- The loop over the addresses of a node, up to the first that answers.
unfoldable pub connect_to_first : (Bytes → Bool) → List Bytes → Bytes → Node → Node
connect_to_first dials [] token node = node
connect_to_first dials (ip_address ∷ ip_addresses) token node =
    let rest = connect_to_first dials ip_addresses token node in
    elim (connect_to_destination dials (ip_address ++ default_port) token node) [
      | none ↦ rest
      | some node' ↦ node'
    ]

-- The addresses of the node of a registered address are tried.
unfoldable pub connect_to_node : (Bytes → Bool) → Lnd → Bytes → Bytes → Node → Run Node
connect_to_node dials client address token node = do
  destination_pub_key ← get_address_node node.db address
  neighbour_ips ← get_node_ips client destination_pub_key
  ok (connect_to_first dials neighbour_ips token node)

-- An address that is not registered is only logged.
unfoldable pub connect_to_destination_auto : (Bytes → Bool) → Lnd → Bytes → Bytes → Node → Run Node
unfolding connect_to_node
connect_to_destination_auto dials client address token node = do
  registered ← is_address_registered node.db address
  if registered then connect_to_node dials client address token node else ok node

-- The end of both searches: the probe sets out, and the answer is read from `incoming`.
unfoldable pub probe : Aes → Lnd → Route → Bytes → Node → Run (Route × Node)
probe aes client route incoming node = do
  (local_hop, route') ← add_hop_to_route client node.db route
  node' ← forward_route aes route' local_hop node
  (response, db) ← receive_route_from_destination node'.db route.token incoming
  ok (response, record node' { db = db })

-- The error of ConnectToDestination is not looked at.
abbrev pub or_unchanged : Node → Option Node → Node
or_unchanged node none = node
or_unchanged node (some node') = node'

unfoldable pub get_route_manual :
    Aes → (Bytes → Bool) → Lnd → Bytes → Bytes → Bytes → Bytes → Node → Run (Route × Node)
unfolding probe
get_route_manual aes dials client token destination ip_address incoming node = do
  let route = create_route token destination
  registered ← is_address_registered node.db destination
  require registered not_registered
  probe aes client route incoming
      (or_unchanged node (connect_to_destination dials ip_address token node))

-- The first address of the destination is logged, so there has to be one.
unfoldable pub get_route_auto :
    Aes → (Bytes → Bool) → Lnd → Bytes → Bytes → Bytes → Node → Run (Route × Node)
unfolding probe
get_route_auto aes dials client token destination incoming node = do
  let route = create_route token destination
  registered ← is_address_registered node.db destination
  require registered not_registered
  node_pub_key ← get_address_node node.db destination
  ip_addresses ← get_node_ips client node_pub_key
  first ← or_panic (get_elem? ip_addresses 0)
  node' ← connect_to_destination_auto dials client destination token node
  probe aes client route incoming node'
