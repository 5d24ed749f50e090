-- ===== src/Peer/Listen/Accepted.antt =====
-- ListenForConnections of ldrlib/networking.go: what becomes of the connections that come in.
use ld_routing.Base.{
  ◌+◌, ◌≡◌, refl, sym, ◌∙◌, ap, subst, Bool, true, false, none, some, [], ◌++◌, length,
  take-append-length, replicate, append-nil,
}
use ld_routing.Base.Run.{ok, fatal, >>=-eq-ok}
use ld_routing.Base.Bytes.{Bytes, IsBytes, bytes_eq_refl, slice}
use ld_routing.Base.Dict.{find-assign}
use ld_routing.Wire.Types.{Ref}
use ld_routing.Db.{Db}
use ld_routing.Db.Addresses.{
  get_node_address, add_peer_conn_to_db, add_dest_conn_to_db, get_dest_conn,
}
use ld_routing.Db.Disk.{read_into}
use ld_routing.Db.Lnd.{Lnd, verify_message}
use ld_routing.Route.Search.{destination_conn_type, plain_conn, connect_to_destination}
use ld_routing.Peer.Rsa.{Rsa}
use ld_routing.Peer.Handshake.{Session, check_peer}
use ld_routing.Peer.Handshake.Exchange.{IsSession}
use ld_routing.Peer.Connection.{ConnInfo, Node, set_conn}
use ld_routing.Peer.Connection.Loop.{Handler, start_connection}
use ld_routing.Peer.Connection.Exchange.{conn_of, conn_of-set_conn, IsReady}
use ld_routing.Peer.Cipher.{Aes}
use ld_routing.Peer.Connection.Link.{IsResting}
use ld_routing.Peer.Listen.{
  KeyPair, accept_peer_handshake, start_session, read_connection_type, accept_destination,
  accept_peer, accept_connection,
}

-- A connection that comes in and closes before its first byte ends the process, where the lightning
-- node does not take a signature of zeros for one of a key of zeros: its type reads as that of a peer.
pub accept_connection-silent :
    (rsa : Rsa) (keys : KeyPair) (ln : Lnd) (node : Node) (lightning_key : Bytes)
    → verify_message ln (replicate 459 0) (replicate 65 0) ≡ ok (false, lightning_key)
    → accept_connection rsa keys ln [] node ≡ fatal
unfolding accept_connection read_connection_type accept_peer accept_peer_handshake check_peer slice
accept_connection-silent rsa keys ln node lightning_key h = rw h refl

read_into-token : (token : Bytes) → length token ≡ 10 → read_into (replicate 10 0) token ≡ token
read_into-token token len =
    let all = rw append-nil at (take-append-length token [] 10 len) in
    rw (all, len) (append-nil token)

-- The connection that was stored last is found.
kept :
    (db : Db) (token : Bytes) (r : Ref)
    → get_dest_conn (add_dest_conn_to_db db token r) token ≡ some r
unfolding get_dest_conn add_dest_conn_to_db
kept db token r = find-assign token token r db.dest_conns ∙ rw (bytes_eq_refl token) refl

accept_connection-destination :
    (rsa : Rsa) (keys : KeyPair) (ln : Lnd) (token : Bytes) (listening : Node)
    → accept_connection rsa keys ln (destination_conn_type ++ token) listening
      ≡ ok (none, accept_destination token listening)
unfolding accept_connection read_connection_type
accept_connection-destination rsa keys ln token listening = refl

accept_destination-kept :
    (token : Bytes) (listening : Node)
    → length token ≡ 10
    → get_dest_conn (accept_destination token listening).db token ≡ some listening.next_conn
unfolding accept_destination set_conn
accept_destination-kept token listening len =
    rw (read_into-token token len) (kept listening.db token listening.next_conn)

-- The token that a searching node sends in is the one under which the listening node keeps the
-- connection, for a token of ten bytes: each side finds its end under the token.
pub accept_connection-connect_to_destination :
    (rsa : Rsa) (keys : KeyPair) (ln : Lnd) (dials : Bytes → Bool) (ip_address token : Bytes)
    (searching listening : Node)
    → dials ip_address ≡ true
    → length token ≡ 10
    → (connected accepted : Node) × (connect_to_destination dials ip_address token searching
        ≡ some connected)
      × (accept_connection rsa keys ln (connected.conn_infos searching.next_conn).sent listening
          ≡ ok (none, accepted))
      × (get_dest_conn connected.db token ≡ some searching.next_conn)
      × (get_dest_conn accepted.db token ≡ some listening.next_conn)
unfolding connect_to_destination set_conn
accept_connection-connect_to_destination rsa keys ln dials ip_address token searching listening h
      len =
    let made = plain_conn (destination_conn_type ++ token) in
    let db = add_dest_conn_to_db searching.db token searching.next_conn in
    let connected =
      set_conn searching.next_conn made
        (record searching { db = db; next_conn = searching.next_conn + 1 }) in
    let sent : (connected.conn_infos searching.next_conn).sent ≡ destination_conn_type ++ token =
      ap (λ (c : ConnInfo). c.sent)
        (conn_of-set_conn searching.next_conn made
          (record searching { db = db; next_conn = searching.next_conn + 1 })) in
    (
      connected,
      accept_destination token listening,
      rw h refl,
      ap (λ bytes. accept_connection rsa keys ln bytes listening) sent
          ∙ accept_connection-destination rsa keys ln token listening,
      kept searching.db token searching.next_conn,
      accept_destination-kept token listening len,
    )

-- What the start of a handler makes of its connection.
started : Session → ConnInfo
started session = record {
  locked = false;
  session_key = session.session_key;
  base_iv = session.base_iv;
  seq_number = session.start_seq;
  sent = [];
}

ok-injective : {A : Type 0} {a b : A} → ok a ≡ ok b → a ≡ b
ok-injective h = cc

-- The connection and the handler have the session.
HasSession : Session → Handler × Node → Type 0
HasSession session p =
    (conn_of p.0 p.1 ≡ started session)
    × (p.0.session_key ≡ session.session_key)
    × (p.0.base_iv ≡ session.base_iv)

start_session-HasSession :
    (session : Session) (node node' : Node) (h : Handler)
    → start_session session node ≡ ok (h, node')
    → HasSession session (h, node')
unfolding start_session start_connection HasSession started
start_session-HasSession session node node' h e =
    let ((address, known), _, e1) = >>=-eq-ok (get_node_address node.db session.peer_key) _ e in
    let (db, _, e2) = >>=-eq-ok (add_peer_conn_to_db node.db address node.next_conn) _ e1 in
    subst (HasSession session) (ok-injective e2) (
      conn_of-set_conn node.next_conn (started session)
          (record node { db = db; next_conn = node.next_conn + 1 }),
      refl,
      refl,
    )

started-IsReady :
    (session : Session) (node : Node) (h : Handler)
    → IsSession session
    → IsBytes 12 session.start_seq
    → HasSession session (h, node)
    → IsReady h (conn_of h node)
unfolding HasSession started
started-IsReady session node h sizes bytes (conn, key, iv) = subst (IsReady h) (sym conn) (record {
  same_key = key;
  same_iv = iv;
  session_key = sizes.session_key;
  base_iv = sizes.base_iv;
  seq_number = bytes;
  free = refl;
})

-- Two handlers that start with the same session, of sizes 16, 12 and 12, are the ends of a link at
-- rest.
pub start_session-IsResting :
    (aes : Aes) (ln_a ln_b : Lnd) (session_a session_b : Session) (node_a node_b a b : Node)
    (h_a h_b : Handler)
    → IsSession session_a
    → IsBytes 12 session_a.start_seq
    → session_b ≡ record session_a { peer_key = session_b.peer_key }
    → start_session session_a node_a ≡ ok (h_a, a)
    → start_session session_b node_b ≡ ok (h_b, b)
    → IsResting
        (record { aes = aes; ln_a = ln_a; ln_b = ln_b; at_a = h_a; at_b = h_b })
        (record { a = a; b = b; to_a = []; to_b = [] })
unfolding HasSession started
start_session-IsResting aes ln_a ln_b sa sb node_a node_b a b h_a h_b sizes bytes same e e' =
    let (ca, ka, ia) = start_session-HasSession sa node_a a h_a e in
    let (cb, kb, ib) = start_session-HasSession sb node_b b h_b e' in
    let sk : sb.session_key ≡ sa.session_key = ap (λ (s : Session). s.session_key) same in
    let si : sb.base_iv ≡ sa.base_iv = ap (λ (s : Session). s.base_iv) same in
    let ss : sb.start_seq ≡ sa.start_seq = ap (λ (s : Session). s.start_seq) same in
    let sizes' : IsSession sb = record {
      session_key = ap length sk ∙ sizes.session_key;
      base_iv = ap length si ∙ sizes.base_iv;
      start_seq = ap length ss ∙ sizes.start_seq;
    } in
    record {
      empty_a = refl;
      empty_b = refl;
      ready_a = started-IsReady sa a h_a sizes bytes (ca, ka, ia);
      ready_b = started-IsReady sb b h_b sizes' (subst (IsBytes 12) (sym ss) bytes) (cb, kb, ib);
      session_key =
          ap (λ (c : ConnInfo). c.session_key) ca
          ∙ sym sk
          ∙ sym (ap (λ (c : ConnInfo). c.session_key) cb);
      base_iv =
          ap (λ (c : ConnInfo). c.base_iv) ca ∙ sym si ∙ sym (ap (λ (c : ConnInfo). c.base_iv) cb);
      seq_number =
          ap (λ (c : ConnInfo). c.seq_number) ca
          ∙ sym ss
          ∙ sym (ap (λ (c : ConnInfo). c.seq_number) cb);
    }
