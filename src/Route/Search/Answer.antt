-- ===== src/Route/Search/Answer.antt =====
-- A search of ldrlib/routing.go from the node that asks to the answer of the destination.
use ld_routing.Base.{
  ◌≡◌, refl, sym, ◌∙◌, ap, subst, Bool, true, none, some, List, [], length, drop,
  drop-append-length,
}
use ld_routing.Base.Run.{ok, panic}
use ld_routing.Base.Bytes.{Bytes}
use ld_routing.Wire.Types.{Ref, Route, IsRoute}
use ld_routing.Wire.Codec.{serialize_route}
use ld_routing.Db.Addresses.{
  is_address_registered, get_peer_conn, get_dest_conn, remove_dest_conn_from_db,
}
use ld_routing.Db.Lnd.{Lnd}
use ld_routing.Message.{create_forward_route_message}
use ld_routing.Route.{create_route, add_hop_to_route, receive_route_from_destination}
use ld_routing.Route.Probe
use ld_routing.Route.Probe.{receive_route_from_destination-serialize_route}
use ld_routing.Route.Search.{connect_to_destination, probe, get_route_manual}
use ld_routing.Peer.Cipher.{Aes, IsGcm}
use ld_routing.Peer.Connection.{ConnInfo, Node, set_conn, frame, forward_route}
use ld_routing.Peer.Connection.Frames.{advance, send_message-advance}
use ld_routing.Peer.Connection.Exchange.{sealed, conn_of-set_conn}
use ld_routing.Peer.Connection.Relay.{Site, Carried, Chain}
use ld_routing.Peer.Connection.Relay.Arrival.{forward-Carried}

-- What a node needs to send a route on: a connection with the next hop, of the right sizes.
pub record IsSender (node : Node) (next : Bytes) (out : Ref) : Type 0 where
  pub found : get_peer_conn node.db next ≡ ok (some out)
  pub session_key : length (node.conn_infos out).session_key ≡ 16
  pub base_iv : length (node.conn_infos out).base_iv ≡ 12
  pub seq_number : length (node.conn_infos out).seq_number ≡ 12

pub forward_route-sent :
    (aes : Aes) (route : Route) (next : Bytes) (out : Ref) (node : Node)
    → IsGcm aes
    → IsSender node next out
    → forward_route aes route next node
      ≡ ok (
          set_conn out
            (advance aes (node.conn_infos out) (create_forward_route_message route))
            node)
unfolding forward_route
forward_route-sent aes route next out node gcm sender =
    let sent =
      send_message-advance aes (node.conn_infos out) (create_forward_route_message route) gcm
        sender.session_key sender.base_iv sender.seq_number in
    rw (sender.found, sent) refl

-- What a search that succeeds leaves: the probe that was sent arrives at the destination, the node
-- has the answer, and the connection of the token is closed.
pub record IsAnswered (aes : Aes) (before : Node) (out : Ref) (sites : List Site) (token : Bytes)
    (last_route : Route) (after : Node) : Type 0 where
  pub carried :
      Carried aes sites
        (drop (length (before.conn_infos out).sent) (after.conn_infos out).sent)
        (serialize_route last_route)
  pub closed : get_dest_conn after.db token ≡ none

-- The node after the probe is sent and the answer is read.
searched : Aes → Node → Ref → Bytes → Route → Node
searched aes node out token route' =
    record (set_conn out (advance aes (node.conn_infos out) (create_forward_route_message route'))
      node) { db = remove_dest_conn_from_db node.db token }

searched-IsAnswered :
    (aes : Aes) (node : Node) (out : Ref) (sites : List Site) (token : Bytes)
    (route' last_route : Route)
    → IsGcm aes
    → Chain (node.conn_infos out) route' sites last_route
    → IsAnswered aes node out sites token last_route (searched aes node out token route')
unfolding searched
searched-IsAnswered aes node out sites token route' last_route gcm chain =
    let conn = node.conn_infos out in
    let message = create_forward_route_message route' in
    let sent : (searched aes node out token route').conn_infos out ≡ advance aes conn message =
      conn_of-set_conn out (advance aes conn message) node in
    let written =
      ap (λ (c : ConnInfo). drop (length conn.sent) c.sent) sent
      ∙ drop-append-length conn.sent (frame (sealed aes conn message)) (length conn.sent) refl in
    record {
      carried =
          subst (λ bytes. Carried aes sites bytes (serialize_route last_route)) (sym written)
            (forward-Carried aes conn route' last_route sites gcm chain);
      closed = Probe.closed node.db token;
    }

probe-searched :
    (aes : Aes) (ln : Lnd) (route route' last_route : Route) (next : Bytes) (out in_ : Ref)
    (node : Node)
    → IsGcm aes
    → add_hop_to_route ln node.db route ≡ ok (next, route')
    → IsSender node next out
    → get_dest_conn node.db route.token ≡ some in_
    → IsRoute last_route
    → probe aes ln route (serialize_route last_route) node
      ≡ ok (record last_route { hops = [] }, searched aes node out route.token route')
unfolding probe searched set_conn
probe-searched aes ln route route' last_route next out in_ node gcm added sender waiting sized =
    rw
      (
        added,
        probe,
        forward_route-sent aes route' next out node gcm sender,
        receive_route_from_destination-serialize_route node.db last_route route.token in_ sized
            waiting,
      )
      refl

-- A search for a registered destination, which the node could connect to, ends with the route that
-- arrives there, without its hops: where addHopToRoute gives a next hop that the node is connected
-- with, the nodes from there lead to the destination, and their route comes in on the connection of
-- the token. The probe that the node has sent is carried to the destination.
pub get_route_manual-IsAnswered :
    (aes : Aes) (dials : Bytes → Bool) (ln : Lnd) (token destination ip_address next : Bytes)
    (node connected : Node) (out in_ : Ref) (route' last_route : Route) (sites : List Site)
    → IsGcm aes
    → is_address_registered node.db destination ≡ ok true
    → connect_to_destination dials ip_address token node ≡ some connected
    → get_dest_conn connected.db token ≡ some in_
    → add_hop_to_route ln connected.db (create_route token destination) ≡ ok (next, route')
    → IsSender connected next out
    → IsRoute last_route
    → Chain (connected.conn_infos out) route' sites last_route
    → (after : Node) × (get_route_manual aes dials ln token destination ip_address
          (serialize_route last_route)
          node
        ≡ ok (record last_route { hops = [] }, after))
      × IsAnswered aes connected out sites token last_route after
unfolding get_route_manual create_route
get_route_manual-IsAnswered aes dials ln token destination ip_address next node connected out in_
      route' last_route sites gcm registered dialled waiting added sender sized chain =
    let route = create_route token destination in
    (
      searched aes connected out token route',
      rw
          (
            registered,
            dialled,
            probe-searched aes ln route route' last_route next out in_ connected gcm added sender
                waiting sized,
          )
          refl,
      searched-IsAnswered aes connected out sites token route' last_route gcm chain,
    )

probe-panic :
    (aes : Aes) (ln : Lnd) (route route' : Route) (next incoming : Bytes) (out : Ref) (node : Node)
    → IsGcm aes
    → add_hop_to_route ln node.db route ≡ ok (next, route')
    → IsSender node next out
    → get_dest_conn node.db route.token ≡ none
    → probe aes ln route incoming node ≡ panic
unfolding probe receive_route_from_destination set_conn
probe-panic aes ln route route' next incoming out node gcm added sender absent =
    rw (added, probe, forward_route-sent aes route' next out node gcm sender, absent) refl

-- A search for a registered destination that the node could not connect to panics, where the probe
-- can be sent and no connection has the token: the error of the connection is not looked at.
pub get_route_manual-panic :
    (aes : Aes) (dials : Bytes → Bool) (ln : Lnd)
    (token destination ip_address next incoming : Bytes) (node : Node) (out : Ref) (route' : Route)
    → IsGcm aes
    → is_address_registered node.db destination ≡ ok true
    → connect_to_destination dials ip_address token node ≡ none
    → get_dest_conn node.db token ≡ none
    → add_hop_to_route ln node.db (create_route token destination) ≡ ok (next, route')
    → IsSender node next out
    → get_route_manual aes dials ln token destination ip_address incoming node ≡ panic
unfolding get_route_manual create_route
get_route_manual-panic aes dials ln token destination ip_address next incoming node out route' gcm
      registered failed absent added sender =
    rw
      (
        registered,
        failed,
        probe-panic aes ln (create_route token destination) route' next incoming out node gcm added
            sender absent,
      )
      refl
