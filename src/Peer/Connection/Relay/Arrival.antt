-- ===== src/Peer/Connection/Relay/Arrival.antt =====
-- The end of a row of nodes in ldrlib/networking.go: the destination writes the route to the node
-- that asked for it.
use ld_routing.Base.{
  suc, ◌≡◌, ◌≢◌, refl, sym, ◌∙◌, ap, false, none, List, [], ◌∷◌, ◌++◌, length, drop, arith,
  append-nil, drop-append-length, subst,
}
use ld_routing.Base.Run.{ok}
use ld_routing.Base.Bytes.{Bytes}
use ld_routing.Wire.Types.{Route}
use ld_routing.Wire.Codec.{serialize_route}
use ld_routing.Db.{get_local_address}
use ld_routing.Db.Addresses.{remove_dest_conn_from_db}
use ld_routing.Message.{create_forward_route_message}
use ld_routing.Message.Exchange.{process_forward_route_message-create_forward_route_message}
use ld_routing.Route.{send_route_to_sender}
use ld_routing.Route.Probe.{close_dest_connection-ok}
use ld_routing.Peer.Cipher.{Aes, IsGcm}
use ld_routing.Peer.Connection.{ConnInfo, Node, set_conn, frame}
use ld_routing.Peer.Connection.Dispatch.{handled, handle_forward_route, answer_route}
use ld_routing.Peer.Connection.Exchange.{conn_of-set_conn, taken, sealed}
use ld_routing.Peer.Connection.Relay.{
  Site, conn_in, conn_out, Carried, at_end, through, IsReader, IsArrival, Chain, arrives, passes,
}
use ld_routing.Route.Hops.{IsExtension}
use ld_routing.Peer.Connection.Relay.Extension.{Chain-IsExtension}
use ld_routing.Peer.Connection.Relay.Hop.{
  set_conn-other, busy, released, handle_round-forward, passed, handle_forward_route-hop,
  written_out,
}

-- The node at the destination once the route is written to the connection of its token.
delivered : Site → Route → Node
delivered site route =
    let conn = conn_out site in
    set_conn site.out (record conn { sent = conn.sent ++ serialize_route route })
      (record (busy site) { db = remove_dest_conn_from_db site.node.db route.token })

answer_route-busy :
    (site : Site) (conn : ConnInfo) (route : Route)
    → IsReader site conn route
    → IsArrival site route
    → answer_route route (busy site) ≡ ok (delivered site route)
unfolding answer_route send_route_to_sender delivered set_conn
answer_route-busy site conn route reader arrival =
    let same : (busy site).conn_infos site.out ≡ conn_out site =
      set_conn-other site.handler.peer_conn_info site.out (taken (conn_in site)) site.node
        reader.other_out in
    rw
      (
        arrival.waiting,
        close_dest_connection-ok site.node.db route.token site.out arrival.waiting,
        same,
      )
      refl

handle_forward_route-arrival :
    (aes : Aes) (site : Site) (conn : ConnInfo) (route : Route)
    → IsReader site conn route
    → IsArrival site route
    → handle_forward_route aes site.ln (busy site) (create_forward_route_message route)
      ≡ ok (handled none (delivered site route))
unfolding handle_forward_route set_conn get_local_address
handle_forward_route-arrival aes site conn route reader arrival =
    let read_back =
      process_forward_route_message-create_forward_route_message route reader.sized
        (omega (arith, reader.short)) in
    rw
      (
        read_back,
        handle_forward_route,
        arrival.here,
        answer_route-busy site conn route reader arrival,
      )
      refl

written_back :
    (site : Site) (route : Route)
    → site.out ≢ site.handler.peer_conn_info
    → drop
        (length (conn_out site).sent)
        ((released site (delivered site route)).conn_infos site.out).sent
      ≡ serialize_route route
unfolding delivered
written_back site route other =
    let c = conn_out site in
    let c' : ConnInfo = record c { sent = c.sent ++ serialize_route route } in
    let free = record ((delivered site route).conn_infos site.handler.peer_conn_info) {
      locked = false;
    } in
    let here : (released site (delivered site route)).conn_infos site.out ≡ c' =
      set_conn-other site.handler.peer_conn_info site.out free (delivered site route) other
      ∙ conn_of-set_conn site.out c'
          (record (busy site) { db = remove_dest_conn_from_db site.node.db route.token }) in
    ap (λ (x : ConnInfo). drop (length c.sent) x.sent) here
    ∙ drop-append-length c.sent (serialize_route route) (length c.sent) refl

-- What a node does to the stream when its round is known.
through_round :
    (aes : Aes) (site : Site) (sites : List Site) (conn : ConnInfo) (route : Route) (node : Node)
    (bytes last_bytes : Bytes)
    → IsGcm aes
    → IsReader site conn route
    → handle_forward_route aes site.ln (busy site) (create_forward_route_message route)
      ≡ ok (handled none node)
    → drop (length (conn_out site).sent) ((released site node).conn_infos site.out).sent ≡ bytes
    → Carried aes sites bytes last_bytes
    → Carried aes
        (site ∷ sites)
        (frame (sealed aes conn (create_forward_route_message route)))
        last_bytes
through_round aes site sites conn route node bytes last_bytes gcm reader result written rest =
    let round =
      rw append-nil at (handle_round-forward aes site conn route [] node gcm reader result) in
    through (released site node) round
      (subst (λ b. Carried aes sites b last_bytes) (sym written) rest)

pub forward-Carried :
    (aes : Aes) (conn : ConnInfo) (route last_route : Route) (sites : List Site)
    → IsGcm aes
    → Chain conn route sites last_route
    → Carried aes sites
        (frame (sealed aes conn (create_forward_route_message route)))
        (serialize_route last_route)
forward-Carried aes conn route _ _ gcm (arrives site reader arrival) =
    through_round aes site [] conn route (delivered site route) (serialize_route route)
      (serialize_route route) gcm reader
      (handle_forward_route-arrival aes site conn route reader arrival)
      (written_back site route reader.other_out) at_end
forward-Carried aes conn route last_route _ gcm
      (passes {route' = route'} {sites = sites} site reader hop chain) =
    through_round aes site sites conn route (passed aes site route')
      (frame (sealed aes (conn_out site) (create_forward_route_message route')))
      (serialize_route last_route) gcm reader
      (handle_forward_route-hop aes site conn route route' gcm reader hop)
      (written_out aes site route' reader.other_out)
      (forward-Carried aes (conn_out site) route' last_route sites gcm chain)

-- A forward message that enters a row of nodes which leads to the destination is carried through it:
-- the last node writes the route to the connection of its token. It is for the same destination and
-- token, with one more hop for each node but the last, and has no more capacity if it came in with a
-- hop. The cipher is one that opens what it seals.
pub create_forward_route_message-Carried :
    (aes : Aes) (conn : ConnInfo) (route last_route : Route) (sites : List Site)
    → IsGcm aes
    → Chain conn route sites last_route
    → Carried aes sites
        (frame (sealed aes conn (create_forward_route_message route)))
        (serialize_route last_route)
      × (added : List Bytes) × IsExtension route last_route added
      × (suc (length added) ≡ length sites)
create_forward_route_message-Carried aes conn route last_route sites gcm chain =
    let (added, extended, size) = Chain-IsExtension conn route last_route sites chain in
    (forward-Carried aes conn route last_route sites gcm chain, added, extended, size)
