-- ===== src/Peer/Connection/Exchange.antt =====
-- Two peers of ldrlib/networking.go on one connection: a table request, its answer and what becomes
-- of it.
use ld_routing.Base.{
  ◌+◌, ◌<◌, ◌^◌, ◌≡◌, refl, sym, ◌∙◌, true, false, none, some, ◌++◌, ◌==◌, ==_iff, length, arith,
  leb, length-append,
}
use ld_routing.Base.Run.{
  ok, ◌>>=◌, >>=-eq-ok, require, invalid_response_size, invalid_response_type,
}
use ld_routing.Base.Bytes.{Bytes, IsBytes, slice, be, put_be, length-put_be}
use ld_routing.Wire.Types.{Ref}
use ld_routing.Db.{Db, genesis_block}
use ld_routing.Db.Lnd.{Lnd}
use ld_routing.Message.{
  table_request_type, table_response_type, create_table_request, process_table_request,
  process_table_response,
}
use ld_routing.Peer.Sequence.{increment_seq_number}
use ld_routing.Peer.Sequence.Count.{increment_seq_number-IsBytes}
use ld_routing.Peer.Sequence.Nonce.{nonce_of, get_nonce-nonce_of, length-nonce_of}
use ld_routing.Peer.Cipher.{Aes, IsGcm, decrypt_aes}
use ld_routing.Peer.Connection.{ConnInfo, Node, set_conn, frame, goes_on, send_table_request}
use ld_routing.Peer.Connection.Dispatch.{
  handled, handle_message, handle_table_request, handle_table_response,
}
use ld_routing.Peer.Connection.Loop.{Handler, finish_round, treat_message, handle_round}
use ld_routing.Peer.Connection.Frames.{read_message-frame, advance, send_message-advance}

-- The connection of a handler.
abbrev pub conn_of : Handler → Node → ConnInfo
conn_of h node = node.conn_infos h.peer_conn_info

-- A connection that a handler serves: its session, of the right sizes, and a free mutex.
pub record IsReady (h : Handler) (conn : ConnInfo) : Type 0 where
  pub same_key : h.session_key ≡ conn.session_key
  pub same_iv : h.base_iv ≡ conn.base_iv
  pub session_key : length conn.session_key ≡ 16
  pub base_iv : length conn.base_iv ≡ 12
  pub seq_number : IsBytes 12 conn.seq_number
  pub free : conn.locked ≡ false

pub conn_of-set_conn :
    (r : Ref) (conn : ConnInfo) (node : Node) → (set_conn r conn node).conn_infos r ≡ conn
unfolding set_conn
conn_of-set_conn r conn node = let e : (r == r) ≡ true = (==_iff r r).1 refl in rw e refl

-- The connection once a message is decrypted.
abbrev pub taken : ConnInfo → ConnInfo
taken conn = record conn { locked = true; seq_number = increment_seq_number conn.seq_number }

-- A message under the next nonce of a connection.
abbrev pub sealed : Aes → ConnInfo → Bytes → Bytes
sealed aes conn message = aes.seal conn.session_key (nonce_of conn.base_iv conn.seq_number) message

-- A message that was sealed under the nonce that the receiver is at is opened and handled.
pub treat_message-sealed :
    (aes : Aes) (ln : Lnd) (h : Handler) (node : Node) (message : Bytes)
    → IsGcm aes
    → IsReady h (conn_of h node)
    → treat_message aes ln h node (sealed aes (conn_of h node) message) ≡ (
        handle_message aes ln h.peer_pub_key
          (set_conn h.peer_conn_info (taken (conn_of h node)) node)
          message
        >>= finish_round aes h (set_conn h.peer_conn_info (taken (conn_of h node)) node))
unfolding treat_message decrypt_aes
treat_message-sealed aes ln h node message gcm ready =
    let conn = conn_of h node in
    let same : length conn.base_iv ≡ length conn.seq_number =
      ready.base_iv ∙ sym ready.seq_number.len in
    rw
      (
        ready.free,
        ready.same_iv,
        ready.same_key,
        get_nonce-nonce_of conn.base_iv conn.seq_number same,
        gcm.takes_key conn.session_key ready.session_key,
        gcm.takes_nonce (nonce_of conn.base_iv conn.seq_number)
            (length-nonce_of conn.base_iv conn.seq_number same ∙ ready.base_iv),
        gcm.opens conn.session_key (nonce_of conn.base_iv conn.seq_number) message,
      )
      refl

-- The first message of an exchange.
abbrev pub request : Bytes
request = put_be 2 table_request_type ++ put_be 8 genesis_block

pub length-request : length request ≡ 10
length-request =
    omega (arith, length-append (put_be 2 0) (put_be 8 0), length-put_be 2 0, length-put_be 8 0)

pub send_table_request-advance :
    (aes : Aes) (h : Handler) (node : Node)
    → IsGcm aes
    → IsReady h (conn_of h node)
    → send_table_request aes h.peer_conn_info node
      ≡ ok (goes_on (set_conn h.peer_conn_info (advance aes (conn_of h node) request) node))
unfolding send_table_request create_table_request
send_table_request-advance aes h node gcm ready =
    rw
      (
        send_message-advance aes (conn_of h node) request gcm ready.session_key ready.base_iv
            ready.seq_number.len,
        ready.free,
      )
      refl

-- The connection after a request is answered, and after a response is taken in.
abbrev pub answered : Aes → ConnInfo → Bytes → ConnInfo
answered aes conn response = record (advance aes (taken conn) response) { locked = false }

handle_table_request-ok :
    (node : Node) (message response : Bytes)
    → process_table_request node.db message ≡ ok response
    → handle_table_request node message ≡ ok (handled (some response) node)
unfolding handle_table_request
handle_table_request-ok node message response h = rw (h, handle_table_request) refl

handle_message-request :
    (aes : Aes) (ln : Lnd) (key : Bytes) (node : Node) (response : Bytes)
    → process_table_request node.db request ≡ ok response
    → handle_message aes ln key node request ≡ ok (handled (some response) node)
unfolding handle_message slice put_be be
handle_message-request aes ln key node response h = handle_table_request-ok node request response h

process_table_response-type :
    (response : Bytes) (db db' : Db) (key : Bytes) (ln : Lnd)
    → process_table_response response db key ln ≡ ok db'
    → (t : Bytes) × (slice 0 2 response ≡ ok t) × (be t ≡ table_response_type)
unfolding process_table_response
process_table_response-type response db db' key ln h =
    let (_, _, h1) = >>=-eq-ok (require (leb 4 (length response)) invalid_response_size) _ h in
    let (t, e, h2) = >>=-eq-ok (slice 0 2 response) _ h1 in
    let (_, e2, _) = >>=-eq-ok (require (be t == table_response_type) invalid_response_type) _ h2 in
    (t, e, ground (arith, e2))

handle_table_response-ok :
    (ln : Lnd) (key : Bytes) (node : Node) (response : Bytes) (db : Db)
    → process_table_response response node.db key ln ≡ ok db
    → handle_table_response ln key node response ≡ ok (handled none (record node { db = db }))
unfolding handle_table_response
handle_table_response-ok ln key node response db h = rw (h, handle_table_response) refl

handle_message-response :
    (aes : Aes) (ln : Lnd) (key : Bytes) (node : Node) (response : Bytes) (db : Db)
    → process_table_response response node.db key ln ≡ ok db
    → handle_message aes ln key node response ≡ ok (handled none (record node { db = db }))
unfolding handle_message
handle_message-response aes ln key node response db h =
    let (t, e, type_) = process_table_response-type response node.db db key ln h in
    rw (e, type_) (handle_table_response-ok ln key node response db h)

-- A round that answers a table request.
pub handle_round-request :
    (aes : Aes) (ln : Lnd) (h : Handler) (node : Node) (response rest : Bytes)
    → IsGcm aes
    → IsReady h (conn_of h node)
    → process_table_request node.db request ≡ ok response
    → handle_round aes ln h node (frame (sealed aes (conn_of h node) request) ++ rest)
      ≡ ok (
        goes_on (
            set_conn h.peer_conn_info
              (answered aes (conn_of h node) response)
              (set_conn h.peer_conn_info (taken (conn_of h node)) node)),
        rest,
      )
unfolding handle_round finish_round set_conn
handle_round-request aes ln h node response rest gcm ready answer =
    let conn = conn_of h node in
    let node' = set_conn h.peer_conn_info (taken conn) node in
    let small = gcm.tag conn.session_key (nonce_of conn.base_iv conn.seq_number) request in
    let opened = treat_message-sealed aes ln h node request gcm ready in
    let grown = increment_seq_number-IsBytes 12 conn.seq_number ready.seq_number in
    rw
      (
        read_message-frame (sealed aes conn request) rest (omega (arith, small, length-request)),
        handle_round,
        opened,
        handle_message-request aes ln h.peer_pub_key node' response answer,
        conn_of-set_conn h.peer_conn_info (taken conn) node,
        ready.same_key,
        ready.same_iv,
        send_message-advance aes (taken conn) response gcm ready.session_key ready.base_iv
            grown.len,
      )
      refl

-- A round that takes a table response in.
pub handle_round-response :
    (aes : Aes) (ln : Lnd) (h : Handler) (node : Node) (response rest : Bytes) (db : Db)
    → IsGcm aes
    → IsReady h (conn_of h node)
    → length response + 16 < 2 ^ 16
    → process_table_response response node.db h.peer_pub_key ln ≡ ok db
    → handle_round aes ln h node (frame (sealed aes (conn_of h node) response) ++ rest)
      ≡ ok (
        goes_on (
            set_conn h.peer_conn_info
              (record (taken (conn_of h node)) { locked = false })
              (record (set_conn h.peer_conn_info (taken (conn_of h node)) node) { db = db })),
        rest,
      )
unfolding handle_round finish_round set_conn
handle_round-response aes ln h node response rest db gcm ready few result =
    let conn = conn_of h node in
    let node' = set_conn h.peer_conn_info (taken conn) node in
    let small = gcm.tag conn.session_key (nonce_of conn.base_iv conn.seq_number) response in
    rw
      (
        read_message-frame (sealed aes conn response) rest (omega (arith, small, few)),
        handle_round,
        treat_message-sealed aes ln h node response gcm ready,
        handle_message-response aes ln h.peer_pub_key node' response db result,
        conn_of-set_conn h.peer_conn_info (taken conn) node,
      )
      refl
