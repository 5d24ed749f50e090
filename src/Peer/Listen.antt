-- ===== src/Peer/Listen.antt =====
-- ConnectToPeer, ConnectToPeersAuto and ListenForConnections of ldrlib/networking.go, with the two
-- sides of the handshake from the first byte to the last. The bytes that arrive are an argument, and
-- a Read fills its buffer as far as they go; a failed Read is only logged.
pub mod Accepted
use ld_routing.Base.{
  ℕ, ◌+◌, Bool, Option, none, some, List, [], ◌∷◌, ◌++◌, ◌==◌, if◌then◌else◌, drop, replicate,
}
use ld_routing.Base.Run.{Run, ok, ◌>>=◌, for_each}
use ld_routing.Base.Bytes.{Bytes}
use ld_routing.Db.{Db}
use ld_routing.Db.Addresses.{is_node_registered, add_dest_conn_to_db}
use ld_routing.Db.Disk.{read_into}
use ld_routing.Db.Lnd.{Lnd, sign_message, get_node_ips, get_local_node_neighbours_pub_keys}
use ld_routing.Route.Search.{plain_conn, default_port, peer_conn_type}
use ld_routing.Peer.Rsa.{Rsa}
use ld_routing.Peer.Handshake.{
  rsa_key_size, signature_size, Session, check_peer, offer_session, accept_session, confirm_session,
}
use ld_routing.Peer.Connection.{Node, set_conn}
use ld_routing.Peer.Connection.Loop.{Handler, start_connection}

-- What generateRSAKeyPair returns.
pub record KeyPair : Type 0 where
  pub priv_key : Bytes
  pub pub_key : Bytes

abbrev pub rsa_encryption_size : ℕ
rsa_encryption_size = 256

-- The first Read of both sides, and what it leaves.
abbrev pub key_and_signature : Bytes → Bytes
key_and_signature incoming = read_into (replicate (rsa_key_size + signature_size) 0) incoming

abbrev pub second_message : Bytes → Bytes
second_message incoming =
    read_into (replicate rsa_encryption_size 0) (drop (rsa_key_size + signature_size) incoming)

-- acceptPeerHandshake: the session, and the bytes that are written.
unfoldable pub accept_peer_handshake : Rsa → KeyPair → Lnd → Db → Bytes → Run (Session × Bytes)
accept_peer_handshake rsa keys client db incoming = do
  (peer_pub_key, lightning_key) ← check_peer db client (key_and_signature incoming)
  pub_key_signature ← sign_message client keys.pub_key
  (session, acknowledgement) ←
      accept_session rsa keys.priv_key peer_pub_key lightning_key (second_message incoming)
  ok (session, (keys.pub_key ++ pub_key_signature) ++ acknowledgement)

-- offerPeerHandshake: `fresh` has the random key, base IV and start of the sequence.
unfoldable pub offer_peer_handshake :
    Rsa → KeyPair → Session → Lnd → Db → Bytes → Run (Session × Bytes)
offer_peer_handshake rsa keys fresh client db incoming = do
  pub_key_signature ← sign_message client keys.pub_key
  (peer_pub_key, lightning_key) ← check_peer db client (key_and_signature incoming)
  let session = record fresh { peer_key = lightning_key }
  offered ← offer_session rsa peer_pub_key session
  agreed ← confirm_session rsa keys.priv_key session (second_message incoming)
  ok (agreed, (keys.pub_key ++ pub_key_signature) ++ offered)

-- The start of handlePeerConnection with a session.
unfoldable pub start_session : Session → Node → Run (Handler × Node)
start_session session node =
    start_connection session.session_key session.base_iv session.start_seq session.peer_key node

-- A handler and its node, where `sent` was written to the connection before the handler started.
unfoldable pub written_before : Bytes → Handler × Node → Handler × Node
written_before sent (h, node) =
    let conn = node.conn_infos h.peer_conn_info in
    (h, set_conn h.peer_conn_info (record conn { sent = sent ++ conn.sent }) node)

-- readConnectionType: a stream without a byte reads as 0.
unfoldable pub read_connection_type : Bytes → ℕ × Bytes
read_connection_type [] = (0, [])
read_connection_type (b ∷ incoming) = (b, incoming)

-- A connection from a node that searches: its token is ten bytes.
unfoldable pub accept_destination : Bytes → Node → Node
accept_destination incoming node = set_conn node.next_conn (plain_conn []) (record node {
  db = add_dest_conn_to_db node.db (read_into (replicate 10 0) incoming) node.next_conn;
  next_conn = node.next_conn + 1;
})

-- A connection from a peer: the handler that is started for it.
unfoldable pub accept_peer : Rsa → KeyPair → Lnd → Bytes → Node → Run (Option Handler × Node)
accept_peer rsa keys client incoming node = do
  (session, sent) ← accept_peer_handshake rsa keys client node.db incoming
  started ← start_session session node
  let (h, node') = written_before sent started
  ok (some h, node')

-- One round of ListenForConnections, with a connection that was accepted.
unfoldable pub accept_connection : Rsa → KeyPair → Lnd → Bytes → Node → Run (Option Handler × Node)
unfolding accept_peer accept_destination
accept_connection rsa keys client incoming node =
    let (conn_type, rest) = read_connection_type incoming in
    if conn_type == 0
    then accept_peer rsa keys client rest node
    else if conn_type == 1
    then ok (none, accept_destination rest node)
    else ok (none, node)

-- The other ends, by address: whether net.Dial reaches them, the bytes that they send, and the keys
-- and random bytes that are made for them.
pub record Network : Type 0 where
  pub dials : Bytes → Bool
  pub answers : Bytes → Bytes
  pub keys : Bytes → KeyPair
  pub fresh : Bytes → Session

-- ConnectToPeer: none is the error of net.Dial. What is written is the type of the connection and
-- then the messages of the handshake.
unfoldable pub connect_to_peer : Rsa → Network → Lnd → Bytes → Node → Run (Option Node)
connect_to_peer rsa network client ip_address node =
    if network.dials ip_address
    then (do
      (session, sent) ←
          offer_peer_handshake rsa (network.keys ip_address) (network.fresh ip_address) client
            node.db (network.answers ip_address)
      started ← start_session session node
      ok (some (written_before (peer_conn_type ++ sent) started).1))
    else ok none

-- The loop over the addresses of a neighbour, up to the first that answers.
unfoldable pub connect_to_first_peer : Rsa → Network → Lnd → Node → List Bytes → Run Node
connect_to_first_peer rsa network client node [] = ok node
connect_to_first_peer rsa network client node (ip_address ∷ ip_addresses) =
    let rest = connect_to_first_peer rsa network client node ip_addresses in
    connect_to_peer rsa network client (ip_address ++ default_port) node >>= λ connected.
    elim connected [ none ↦ rest | some node' ↦ ok node' ]

-- A neighbour that is not registered is passed over.
unfoldable pub connect_to_neighbour : Rsa → Network → Lnd → Node → Bytes → Run Node
unfolding connect_to_first_peer
connect_to_neighbour rsa network client node neighbour =
    if is_node_registered node.db neighbour
    then (get_node_ips client neighbour >>= connect_to_first_peer rsa network client node)
    else ok node

unfoldable pub connect_to_peers_auto : Rsa → Network → Lnd → Node → Run Node
unfolding connect_to_neighbour
connect_to_peers_auto rsa network client node = do
  neighbours ← get_local_node_neighbours_pub_keys client
  for_each (connect_to_neighbour rsa network client) node neighbours
