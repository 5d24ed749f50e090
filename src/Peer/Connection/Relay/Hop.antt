-- ===== src/Peer/Connection/Relay/Hop.antt =====
-- One node of a row in ldrlib/networking.go: it reads a forward message and sends the route on.
use ld_routing.Base.{
  ◌<◌, ◌^◌, ◌≡◌, ◌≢◌, refl, ◌∙◌, ap, false, none, some, [], ◌++◌, ◌==◌, ==_iff, inl, inr,
  Bool-cases, length, drop, arith, drop-append-length,
}
use ld_routing.Base.Run.{ok}
use ld_routing.Base.Bytes.{Bytes, put_be, be-put_be_two, length-put_be}
use ld_routing.Base.Bytes.Cut.{slice-field}
use ld_routing.Wire.Types.{Ref, Route}
use ld_routing.Wire.Codec.{serialize_route}
use ld_routing.Db.{get_local_address}
use ld_routing.Db.Addresses.{get_peer_conn}
use ld_routing.Db.Lnd.{Lnd}
use ld_routing.Message.{create_forward_route_message}
use ld_routing.Message.Exchange.{
  length-create_forward_route_message, process_forward_route_message-create_forward_route_message,
}
use ld_routing.Peer.Sequence.Nonce.{nonce_of}
use ld_routing.Peer.Cipher.{Aes, IsGcm}
use ld_routing.Peer.Connection.{ConnInfo, Node, set_conn, frame, goes_on, forward_route}
use ld_routing.Peer.Connection.Dispatch.{
  handled, handle_message, handle_forward_route, pass_route_on,
}
use ld_routing.Peer.Connection.Loop.{finish_round, handle_round}
use ld_routing.Peer.Connection.Frames.{read_message-frame, advance, send_message-advance}
use ld_routing.Peer.Connection.Exchange.{conn_of-set_conn, taken, sealed, treat_message-sealed}
use ld_routing.Peer.Connection.Link.Answer.{sealed-same}
use ld_routing.Peer.Connection.Relay.{Site, conn_in, conn_out, IsReader, IsHop}

pub set_conn-other :
    (r q : Ref) (conn : ConnInfo) (node : Node)
    → q ≢ r
    → (set_conn r conn node).conn_infos q ≡ node.conn_infos q
unfolding set_conn
set_conn-other r q conn node other = elim (Bool-cases (q == r)) [
  | inl e ↦ absurd (other ((==_iff q r).0 e))
  | inr e ↦ rw e refl
]

-- The node while a message is handled.
abbrev pub busy : Site → Node
busy site = set_conn site.handler.peer_conn_info (taken (conn_in site)) site.node

-- The node once the mutex is released.
abbrev pub released : Site → Node → Node
released site node =
    set_conn site.handler.peer_conn_info
      (record (node.conn_infos site.handler.peer_conn_info) { locked = false }) node

-- A forward message is told by its type.
handle_message-forward :
    (aes : Aes) (ln : Lnd) (key : Bytes) (node : Node) (route : Route)
    → handle_message aes ln key node (create_forward_route_message route)
      ≡ handle_forward_route aes ln node (create_forward_route_message route)
unfolding handle_message create_forward_route_message
handle_message-forward aes ln key node route =
    rw
      (
        slice-field [] [] 2 (put_be 2 2) (serialize_route route) tt (length-put_be 2 2),
        be-put_be_two 2 (omega arith),
      )
      refl

-- A reader takes a forward message off the stream, and ends the round as the message is handled.
pub handle_round-forward :
    (aes : Aes) (site : Site) (conn : ConnInfo) (route : Route) (rest : Bytes) (node : Node)
    → IsGcm aes
    → IsReader site conn route
    → handle_forward_route aes site.ln (busy site) (create_forward_route_message route)
      ≡ ok (handled none node)
    → handle_round aes site.ln site.handler site.node
        (frame (sealed aes conn (create_forward_route_message route)) ++ rest)
      ≡ ok (goes_on (released site node), rest)
unfolding handle_round finish_round
handle_round-forward aes site conn route rest node gcm reader result =
    let message = create_forward_route_message route in
    let c = conn_in site in
    let same = sealed-same aes conn c message reader.session_key reader.base_iv reader.seq_number in
    let small : length (sealed aes c message) < 2 ^ 16 = omega (
      arith,
      gcm.tag c.session_key (nonce_of c.base_iv c.seq_number) message,
      length-create_forward_route_message route reader.sized,
      reader.short,
    ) in
    let handled_ =
      handle_message-forward aes site.ln site.handler.peer_pub_key (busy site) route ∙ result in
    rw
      (
        same,
        read_message-frame (sealed aes c message) rest small,
        handle_round,
        treat_message-sealed aes site.ln site.handler site.node message gcm reader.ready,
        handled_,
      )
      refl

-- The node that a hop leaves behind, before the mutex is released.
abbrev pub passed : Aes → Site → Route → Node
passed aes site route' =
    set_conn site.out (advance aes (conn_out site) (create_forward_route_message route'))
      (busy site)

forward_route-busy :
    (aes : Aes) (site : Site) (conn : ConnInfo) (route route' : Route) (next : Bytes)
    → IsGcm aes
    → IsReader site conn route
    → IsHop site route route'
    → get_peer_conn site.node.db next ≡ ok (some site.out)
    → forward_route aes route' next (busy site) ≡ ok (passed aes site route')
unfolding forward_route set_conn
forward_route-busy aes site conn route route' next gcm reader hop found =
    let message = create_forward_route_message route' in
    let same : (busy site).conn_infos site.out ≡ conn_out site =
      set_conn-other site.handler.peer_conn_info site.out (taken (conn_in site)) site.node
        reader.other_out in
    let sent =
      send_message-advance aes (conn_out site) message gcm hop.session_key hop.base_iv
        hop.seq_number in
    rw (found, same, sent) refl

pass_route_on-busy :
    (aes : Aes) (site : Site) (conn : ConnInfo) (route route' : Route)
    → IsGcm aes
    → IsReader site conn route
    → IsHop site route route'
    → pass_route_on aes site.ln route (busy site) ≡ ok (passed aes site route')
unfolding pass_route_on set_conn
pass_route_on-busy aes site conn route route' gcm reader hop =
    let (next, added, found) = hop.next_hop in
    rw (added, pass_route_on)
      (forward_route-busy aes site conn route route' next gcm reader hop found)

pub handle_forward_route-hop :
    (aes : Aes) (site : Site) (conn : ConnInfo) (route route' : Route)
    → IsGcm aes
    → IsReader site conn route
    → IsHop site route route'
    → handle_forward_route aes site.ln (busy site) (create_forward_route_message route)
      ≡ ok (handled none (passed aes site route'))
unfolding handle_forward_route set_conn get_local_address
handle_forward_route-hop aes site conn route route' gcm reader hop =
    let read_back =
      process_forward_route_message-create_forward_route_message route reader.sized
        (omega (arith, reader.short)) in
    rw
      (
        read_back,
        handle_forward_route,
        hop.elsewhere,
        pass_route_on-busy aes site conn route route' gcm reader hop,
      )
      refl

pub written_out :
    (aes : Aes) (site : Site) (route' : Route)
    → site.out ≢ site.handler.peer_conn_info
    → drop
        (length (conn_out site).sent)
        ((released site (passed aes site route')).conn_infos site.out).sent
      ≡ frame (sealed aes (conn_out site) (create_forward_route_message route'))
written_out aes site route' other =
    let c = conn_out site in
    let message = create_forward_route_message route' in
    let free = record ((passed aes site route').conn_infos site.handler.peer_conn_info) {
      locked = false;
    } in
    let here : (released site (passed aes site route')).conn_infos site.out
        ≡ advance aes c message =
      set_conn-other site.handler.peer_conn_info site.out free (passed aes site route') other
      ∙ conn_of-set_conn site.out (advance aes c message) (busy site) in
    ap (λ (x : ConnInfo). drop (length c.sent) x.sent) here
    ∙ drop-append-length c.sent (frame (sealed aes c message)) (length c.sent) refl
