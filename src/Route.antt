-- ===== src/Route.antt =====
-- ldrlib/routing.go, and the two ends of a probe in ldrlib/networking.go.
pub mod Probe
pub mod Hops
pub mod Search
use ld_routing.Base.{
  ◌*◌, Bool, ◌&&◌, ◌||◌, none, some, List, [], ◌∷◌, ◌++◌, ◌==◌, if◌then◌else◌, length, replicate,
}
use ld_routing.Base.Int.{ℤ, pos, ltb_ℤ}
use ld_routing.Base.Run.{Run, ok, err, ◌>>=◌, no_routing_information, or_panic}
use ld_routing.Base.Bytes.{Bytes, bytes_eq, le}
use ld_routing.Wire.Types.{Route}
use ld_routing.Wire.Codec.{serialize_route, deserialize_route}
use ld_routing.Wire.Hex.{pub_key_array_to_string}
use ld_routing.Db.{Db}
use ld_routing.Db.Addresses.{get_address_node, get_dest_conn, remove_dest_conn_from_db}
use ld_routing.Db.Disk.{read_into}
use ld_routing.Db.Lnd.{Lnd, Channel, get_local_channels}
use ld_routing.Db.Routing.{get_routing_entry}

-- The ten random bytes of the token are an argument.
unfoldable pub create_route : Bytes → Bytes → Route
create_route token destination = record {
  destination = destination;
  capacity = pos 0;
  hops = [];
  token = token;
}

-- The loop of addHopToRoute over the local channels.
unfoldable pub hop_capacity : Bool → Bytes → List Channel → ℤ → ℤ
hop_capacity first_hop hop [] capacity = capacity
hop_capacity first_hop hop (channel ∷ channels) capacity = hop_capacity first_hop hop channels (
    if bytes_eq channel.remote_pubkey hop && (first_hop || ltb_ℤ channel.local_balance capacity)
    then channel.local_balance
    else capacity)

-- The next hop, and the route with that hop and the new capacity.
unfoldable pub add_hop_to_route : Lnd → Db → Route → Run (Bytes × Route)
add_hop_to_route client db route = do
  found ← get_routing_entry db route.destination
  elim found [
    | none ↦ err no_routing_information
    | some entry ↦ do
      let next_hop = (db.cells entry).next_hop
      hop_pub_key ← get_address_node db next_hop
      channels ← get_local_channels client
      ok (
        next_hop,
        record route {
          capacity =
              hop_capacity (length route.hops == 0) (pub_key_array_to_string hop_pub_key) channels
                route.capacity;
          hops = route.hops ++ (next_hop ∷ []);
        },
      )
  ]

-- closeDestConnection: the connection of an unknown token is nil.
unfoldable pub close_dest_connection : Db → Bytes → Run Db
close_dest_connection db token = do
  conn ← or_panic (get_dest_conn db token)
  ok (remove_dest_conn_from_db db token)

-- sendRouteToSender: the bytes that are written to the connection of the token.
unfoldable pub send_route_to_sender : Db → Route → Run (Bytes × Db)
send_route_to_sender db route = do
  conn ← or_panic (get_dest_conn db route.token)
  db' ← close_dest_connection db route.token
  ok (serialize_route route, db')

-- ReceiveRouteFromDestination, where `incoming` is what the first Read can take. The two bytes for
-- the number of hops are made and never read, so the second Read has an empty buffer.
unfoldable pub receive_route_from_destination : Db → Bytes → Bytes → Run (Route × Db)
receive_route_from_destination db token incoming = do
  conn ← or_panic (get_dest_conn db token)
  let header_bytes = read_into (replicate 22 0) incoming
  let number_hops_bytes = replicate 2 0
  let hops_bytes = replicate (le number_hops_bytes * 4) 0
  db' ← close_dest_connection db token
  route ← deserialize_route (header_bytes ++ (number_hops_bytes ++ hops_bytes))
  ok (route, db')
