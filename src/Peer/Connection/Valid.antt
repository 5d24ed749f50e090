-- ===== src/Peer/Connection/Valid.antt =====
-- handlePeerConnection of ldrlib/networking.go and the invariant of the database.
pub mod Branches
pub mod Stream
use ld_routing.Base.{
  ℕ, zero, suc, ◌≡◌, refl, sym, ◌∙◌, ap, subst, Bool, true, false, Option, none, some, inl, inr,
  ◌==◌, if◌then◌else◌, Bool-cases, Option-cases, ◌++◌,
}
use ld_routing.Base.Run.{Run, ok, err, panic, fatal, ◌>>=◌, >>=-eq-ok, or_panic, Run-cases}
use ld_routing.Base.Bytes.{Bytes, slice, be, bytes_eq}
use ld_routing.Wire.Types.{Ref, Route}
use ld_routing.Wire.Codec.{serialize_route}
use ld_routing.Db.{Db, zero_address, get_local_address}
use ld_routing.Db.Addresses.{get_peer_conn, get_dest_conn, remove_dest_conn_from_db}
use ld_routing.Db.Lnd.{Lnd}
use ld_routing.Db.Valid.{IsValid}
use ld_routing.Message.{
  table_request_type, table_response_type, forward_route_type, create_forward_route_message,
  process_forward_route_message, process_table_request, process_table_response,
}
use ld_routing.Message.Untrusted.{process_table_response-IsValid}
use ld_routing.Route.{add_hop_to_route, send_route_to_sender, close_dest_connection}
use ld_routing.Peer.Sequence.{get_nonce}
use ld_routing.Peer.Cipher.{Aes, decrypt_aes}
use ld_routing.Peer.Connection.{
  ConnInfo, Node, set_conn, send_message, forward_route, Turn, goes_on, waits, returns,
}
use ld_routing.Peer.Connection.Dispatch.{
  Handled, handled, stops, handle_table_request, handle_table_response, answer_route, pass_route_on,
  handle_forward_route, handle_message,
}
use ld_routing.Peer.Connection.Loop.{
  Handler, read_message, finish_round, treat_message, handle_round, after_round, handle_rounds,
}

ok-injective : {A : Type 0} {a b : A} → ok a ≡ ok b → a ≡ b
ok-injective h = cc

-- The connections of destinations play no part in the invariant.
pub removed-IsValid :
    (db : Db) (token : Bytes) → IsValid db → IsValid (remove_dest_conn_from_db db token)
unfolding remove_dest_conn_from_db
removed-IsValid db token v = record {
  root = v.root;
  in_place = v.in_place;
  keyed = v.keyed;
  pointed = v.pointed;
  stacked = v.stacked;
  distinct = v.distinct;
}

pub db-set_conn : (r : Ref) (conn : ConnInfo) (node : Node) → (set_conn r conn node).db ≡ node.db
unfolding set_conn
db-set_conn r conn node = refl

forward_route-db :
    (aes : Aes) (route : Route) (address : Bytes) (node node' : Node)
    → forward_route aes route address node ≡ ok node'
    → node'.db ≡ node.db
unfolding forward_route
forward_route-db aes route address node node' e =
    let (found, _, e1) = >>=-eq-ok (get_peer_conn node.db address) _ e in
    let (r, _, e2) = >>=-eq-ok (or_panic found) _ e1 in
    let conn = node.conn_infos r in
    let (conn', _, e3) =
      >>=-eq-ok
        (send_message aes conn.session_key conn.base_iv conn (create_forward_route_message route)) _
        e2 in
    ap (λ (n : Node). n.db) (sym (ok-injective e3)) ∙ db-set_conn r conn' node

pub pass_route_on-db :
    (aes : Aes) (ln : Lnd) (route : Route) (node node' : Node)
    → pass_route_on aes ln route node ≡ ok node'
    → node'.db ≡ node.db
unfolding pass_route_on
pass_route_on-db aes ln route node node' e = elim (Run-cases (add_hop_to_route ln node.db route)) [
  | inl ((hop, route'), h) ↦ forward_route-db aes route' hop node node' (rw (h, pass_route_on) at e)
  | inr (inl (x, h)) ↦
      forward_route-db aes route zero_address node node' (rw (h, pass_route_on) at e)
  | inr (inr (inl h)) ↦ absurd (cc (rw (h, pass_route_on) at e))
  | inr (inr (inr h)) ↦ absurd (cc (rw (h, pass_route_on) at e))
]

close_dest_connection-IsValid :
    (db db' : Db) (token : Bytes)
    → close_dest_connection db token ≡ ok db'
    → IsValid db
    → IsValid db'
unfolding close_dest_connection
close_dest_connection-IsValid db db' token e v =
    let (conn, _, e1) = >>=-eq-ok (or_panic (get_dest_conn db token)) _ e in
    subst IsValid (ok-injective e1) (removed-IsValid db token v)

send_route_to_sender-IsValid :
    (db db' : Db) (route : Route) (bytes : Bytes)
    → send_route_to_sender db route ≡ ok (bytes, db')
    → IsValid db
    → IsValid db'
unfolding send_route_to_sender
send_route_to_sender-IsValid db db' route bytes e v =
    let (conn, _, e1) = >>=-eq-ok (or_panic (get_dest_conn db route.token)) _ e in
    let (closed, e2, e3) = >>=-eq-ok (close_dest_connection db route.token) _ e1 in
    subst (λ (p : Bytes × Db). IsValid p.1) (ok-injective e3)
      (close_dest_connection-IsValid db closed route.token e2 v)

pub answer_route-IsValid :
    (route : Route) (node node' : Node)
    → answer_route route node ≡ ok node'
    → IsValid node.db
    → IsValid node'.db
unfolding answer_route
answer_route-IsValid route node node' e v =
    let (r, _, e1) = >>=-eq-ok (or_panic (get_dest_conn node.db route.token)) _ e in
    let ((bytes, db), e2, e3) = >>=-eq-ok (send_route_to_sender node.db route) _ e1 in
    let conn = node.conn_infos r in
    subst (λ (n : Node). IsValid n.db) (ok-injective e3)
      (subst IsValid
        (sym (db-set_conn r (record conn { sent = conn.sent ++ bytes }) (record node { db = db })))
        (send_route_to_sender-IsValid node.db db route bytes e2 v))
