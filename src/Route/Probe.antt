-- ===== src/Route/Probe.antt =====
-- The two ends of a probe: sendRouteToSender and ReceiveRouteFromDestination of ldrlib/networking.go.
use ld_routing.Base.{
  ◌*◌, ◌%◌, ◌^◌, ◌≡◌, refl, sym, ◌∙◌, ap, Option, none, some, [], ◌++◌, take, replicate, length,
  arith, length-append, append_assoc, append-nil, take-append-length,
}
use ld_routing.Base.Int.{to_uint64}
use ld_routing.Base.Run.{Run, ok, ◌>>=◌}
use ld_routing.Base.Bytes.{Bytes, le, put_le, length-put_le, bytes_eq_refl}
use ld_routing.Base.Dict.{find-delete}
use ld_routing.Wire.Types.{Route, IsRoute, Ref}
use ld_routing.Wire.Codec.{serialize_route, concat_hops}
use ld_routing.Wire.Codec.RoundTrip.{deserialize_route-serialize_route}
use ld_routing.Db.{Db}
use ld_routing.Db.Addresses.{get_dest_conn, remove_dest_conn_from_db}
use ld_routing.Db.Disk.{read_into}
use ld_routing.Route.{close_dest_connection, send_route_to_sender, receive_route_from_destination}

-- The connection of a token is closed once it is used.
pub close_dest_connection-ok :
    (db : Db) (token : Bytes) (conn : Ref)
    → get_dest_conn db token ≡ some conn
    → close_dest_connection db token ≡ ok (remove_dest_conn_from_db db token)
unfolding close_dest_connection
close_dest_connection-ok db token conn h = rw h refl

pub closed :
    (db : Db) (token : Bytes) → get_dest_conn (remove_dest_conn_from_db db token) token ≡ none
unfolding get_dest_conn remove_dest_conn_from_db
closed db token = find-delete token token db.dest_conns ∙ rw (bytes_eq_refl token) refl

-- The first 22 bytes of a route: all but the hops and their number.
header : Route → Bytes
header r = r.destination ++ (r.token ++ put_le 8 (to_uint64 r.capacity))

length-header : (r : Route) → IsRoute r → length (header r) ≡ 22
unfolding header
length-header r v =
    let c = put_le 8 (to_uint64 r.capacity) in
    omega (
      arith,
      length-append r.destination (r.token ++ c),
      length-append r.token c,
      v.destination.len,
      v.token.len,
      length-put_le 8 (to_uint64 r.capacity),
    )

-- The Read takes the header of a route that comes in.
read_into-header :
    (r : Route) → IsRoute r → read_into (replicate 22 0) (serialize_route r) ≡ header r
unfolding header serialize_route
read_into-header r v =
    let c = put_le 8 (to_uint64 r.capacity) in
    let tail = put_le 2 (length r.hops % 2 ^ 16) ++ concat_hops r.hops in
    let h = r.destination ++ (r.token ++ c) in
    let whole : h ++ tail ≡ r.destination ++ (r.token ++ (c ++ tail)) = simp append_assoc in
    let front : take 22 (r.destination ++ (r.token ++ (c ++ tail))) ≡ h =
      ap (take 22) (sym whole) ∙ take-append-length h tail 22 (length-header r v) in
    rw (front, length-header r v) (append-nil h)

-- The bytes that the receiver reads back are those of the route without hops.
no_hops :
    (r : Route)
    → header r ++ (replicate 2 0 ++ replicate (le (replicate 2 0) * 4) 0)
      ≡ serialize_route (record r { hops = [] }) ++ []
unfolding header serialize_route put_le le concat_hops
no_hops r = simp (append_assoc, append-nil)

-- The receiver of the bytes of a route has the route without its hops, and closes the connection.
pub receive_route_from_destination-serialize_route :
    (db : Db) (r : Route) (token : Bytes) (conn : Ref)
    → IsRoute r
    → get_dest_conn db token ≡ some conn
    → receive_route_from_destination db token (serialize_route r)
      ≡ ok (record r { hops = [] }, remove_dest_conn_from_db db token)
unfolding receive_route_from_destination
receive_route_from_destination-serialize_route db r token conn v h =
    let e : IsRoute (record r { hops = [] }) = record {
      destination = v.destination;
      capacity = v.capacity;
      hops = tt;
      token = v.token;
    } in
    rw
      (
        h,
        close_dest_connection-ok db token conn h,
        read_into-header r v,
        no_hops r,
        deserialize_route-serialize_route (record r { hops = [] }) [] e (omega arith),
      )
      refl

-- A probe's route comes back: the sender of the route is the probe's destination. The connections of
-- the token on the two sides stand behind the route.
abbrev pub come_back : Db → Db → Route → Run (Route × Option Ref × Option Ref)
come_back sender receiver r = do
  (sent, sender') ← send_route_to_sender sender r
  (received, receiver') ← receive_route_from_destination receiver r.token sent
  ok (received, get_dest_conn sender' r.token, get_dest_conn receiver' r.token)

-- Where both sides have a connection for the token of a route of the right sizes, the route that the
-- destination sends is received without its hops, since the number of hops is never read. All else
-- of the route arrives, and the connection is closed on both sides.
pub receive_route_from_destination-send_route_to_sender :
    (sender receiver : Db) (r : Route) (out in_ : Ref)
    → IsRoute r
    → get_dest_conn sender r.token ≡ some out
    → get_dest_conn receiver r.token ≡ some in_
    → come_back sender receiver r ≡ ok (record r { hops = [] }, none, none)
unfolding send_route_to_sender
receive_route_from_destination-send_route_to_sender sender receiver r out in_ v hs hr =
    rw
      (
        hs,
        close_dest_connection-ok sender r.token out hs,
        receive_route_from_destination-serialize_route receiver r r.token in_ v hr,
        closed sender r.token,
        closed receiver r.token,
      )
      refl
