-- ===== src/Peer/Connection/Relay.antt =====
-- A probe in ldrlib/networking.go and ldrlib/routing.go: a row of nodes, each of which reads what the
-- node before it wrote.
pub mod Hop
pub mod Arrival
pub mod Extension
use ld_routing.Base.{ℕ, ◌<◌, ◌≡◌, ◌≢◌, true, false, some, List, [], ◌∷◌, ◌++◌, length, drop}
use ld_routing.Base.Run.{Run, ok}
use ld_routing.Base.Bytes.{Bytes, IsBytes, bytes_eq}
use ld_routing.Wire.Types.{Ref, Route, IsRoute}
use ld_routing.Db.Addresses.{get_peer_conn, get_dest_conn}
use ld_routing.Db.Lnd.{Lnd}
use ld_routing.Route.{add_hop_to_route}
use ld_routing.Peer.Cipher.{Aes}
use ld_routing.Peer.Connection.{ConnInfo, Node, goes_on}
use ld_routing.Peer.Connection.Loop.{Handler, handle_round}
use ld_routing.Peer.Connection.Exchange.{conn_of, IsReady}

-- A node with the handler that reads, and the connection that the probe leaves on.
pub record Site : Type 0 where
  pub ln : Lnd
  pub handler : Handler
  pub node : Node
  pub out : Ref

abbrev pub conn_in : Site → ConnInfo
conn_in site = conn_of site.handler site.node

abbrev pub conn_out : Site → ConnInfo
conn_out site = site.node.conn_infos site.out

-- The bytes that come out at the end of a row of nodes.
pub data Carried (aes : Aes) : List Site → Bytes → Bytes → Type 0 where
  at_end : {bytes : Bytes} → Carried aes [] bytes bytes
  through :
      {site : Site} {sites : List Site} {bytes left last_bytes : Bytes} (node : Node)
      → handle_round aes site.ln site.handler site.node bytes ≡ ok (goes_on node, left)
      → Carried aes sites
          (drop (length (conn_out site).sent) (node.conn_infos site.out).sent)
          last_bytes
      → Carried aes (site ∷ sites) bytes last_bytes

-- A site that can read what is sealed for a connection, in which the route is of the right sizes and
-- its message fits a frame.
pub record IsReader (site : Site) (conn : ConnInfo) (route : Route) : Type 0 where
  pub ready : IsReady site.handler (conn_in site)
  pub session_key : conn.session_key ≡ (conn_in site).session_key
  pub base_iv : conn.base_iv ≡ (conn_in site).base_iv
  pub seq_number : conn.seq_number ≡ (conn_in site).seq_number
  pub sized : IsRoute route
  pub short : length route.hops < 16000
  pub other_out : site.out ≢ site.handler.peer_conn_info

-- A site in the middle: the route goes on to a next hop, which has another connection.
pub record IsHop (site : Site) (route route' : Route) : Type 0 where
  pub elsewhere : bytes_eq route.destination site.node.db.local_address ≡ false
  pub next_hop :
      (next : Bytes) × (add_hop_to_route site.ln site.node.db route ≡ ok (next, route'))
      × (get_peer_conn site.node.db next ≡ ok (some site.out))
  pub session_key : length (conn_out site).session_key ≡ 16
  pub base_iv : length (conn_out site).base_iv ≡ 12
  pub seq_number : length (conn_out site).seq_number ≡ 12

-- The site at the destination, which has a connection for the token of the route.
pub record IsArrival (site : Site) (route : Route) : Type 0 where
  pub here : bytes_eq route.destination site.node.db.local_address ≡ true
  pub waiting : get_dest_conn site.node.db route.token ≡ some site.out

-- A row of sites that leads to the destination, for a route that is sealed for a connection.
pub data Chain : ConnInfo → Route → List Site → Route → Type 0 where
  arrives :
      {conn : ConnInfo} {route : Route} (site : Site)
      → IsReader site conn route
      → IsArrival site route
      → Chain conn route (site ∷ []) route
  passes :
      {conn : ConnInfo} {route route' last_route : Route} {sites : List Site} (site : Site)
      → IsReader site conn route
      → IsHop site route route'
      → Chain (conn_out site) route' sites last_route
      → Chain conn route (site ∷ sites) last_route
