-- ===== src/Peer/Connection/Relay/Extension.antt =====
-- What the nodes of a row in ldrlib/networking.go have made of the route of a probe.
use ld_routing.Base.{suc, ◌≡◌, refl, ap, List, [], ◌∷◌, length}
use ld_routing.Base.Bytes.{Bytes}
use ld_routing.Wire.Types.{Route}
use ld_routing.Route.Hops.{
  IsExtension, add_hop_to_route-IsHopAdded, unchanged-IsExtension, then-IsExtension,
}
use ld_routing.Peer.Connection.{ConnInfo}
use ld_routing.Peer.Connection.Relay.{Site, Chain, arrives, passes}

-- The route at the end of a row extends the one at its start by a hop for each node but the last.
pub Chain-IsExtension :
    (conn : ConnInfo) (route last_route : Route) (sites : List Site)
    → Chain conn route sites last_route
    → (added : List Bytes) × IsExtension route last_route added
      × (suc (length added) ≡ length sites)
Chain-IsExtension conn route _ _ (arrives site reader arrival) =
    ([], unchanged-IsExtension route, refl)
Chain-IsExtension conn route last_route _
      (passes {route' = route'} {sites = sites} site reader hop chain) =
    let (next, e, _) = hop.next_hop in
    let one = (add_hop_to_route-IsHopAdded site.ln site.node.db route route' next e).extension in
    let (added, more, size) =
      Chain-IsExtension (site.node.conn_infos site.out) route' last_route sites chain in
    (next ∷ added, then-IsExtension route route' last_route (next ∷ []) added one more, ap suc size)
