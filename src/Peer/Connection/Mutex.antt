-- ===== src/Peer/Connection/Mutex.antt =====
-- The mutex of a connection of ldrlib/networking.go: what a round of handlePeerConnection leaves to
-- the goroutine of sendTableRequestPeriodically.
use ld_routing.Base.{◌≡◌, refl, ◌∙◌, ap, subst, true, false, none, some, inl, inr, Bool-cases}
use ld_routing.Base.Run.{ok, >>=-eq-ok}
use ld_routing.Base.Bytes.{Bytes}
use ld_routing.Db.Lnd.{Lnd}
use ld_routing.Message.{create_table_request}
use ld_routing.Wire.Types.{Ref}
use ld_routing.Peer.Sequence.{increment_seq_number, get_nonce}
use ld_routing.Peer.Cipher.{Aes, decrypt_aes}
use ld_routing.Peer.Connection.{
  ConnInfo, Node, set_conn, Turn, goes_on, waits, returns, send_message, send_table_request,
}
use ld_routing.Peer.Connection.Dispatch.{Handled, handled, stops, handle_message}
use ld_routing.Peer.Connection.Loop.{
  Handler, read_message, finish_round, treat_message, handle_round,
}
use ld_routing.Peer.Connection.Exchange.{conn_of, conn_of-set_conn}

-- What the end of a round means for the mutex: it is free after a round that goes on, was taken
-- before a round that waits, and makes the sender wait once the handler has returned.
abbrev pub MutexAfter : Aes → Handler → Node → Turn → Type 0
MutexAfter aes h before (goes_on node) = (conn_of h node).locked ≡ false
MutexAfter aes h before waits = (conn_of h before).locked ≡ true
MutexAfter aes h before (returns node) = send_table_request aes h.peer_conn_info node ≡ ok waits

send_table_request-waits :
    (aes : Aes) (r : Ref) (node : Node)
    → (node.conn_infos r).locked ≡ true
    → send_table_request aes r node ≡ ok waits
unfolding send_table_request create_table_request
send_table_request-waits aes r node e = rw e refl

set_conn-locked :
    (h : Handler) (conn : ConnInfo) (node : Node)
    → (conn_of h (set_conn h.peer_conn_info conn node)).locked ≡ conn.locked
set_conn-locked h conn node =
    ap (λ (c : ConnInfo). c.locked) (conn_of-set_conn h.peer_conn_info conn node)

finish_round-MutexAfter :
    (aes : Aes) (h : Handler) (before node : Node) (result : Handled) (turn : Turn)
    → (conn_of h node).locked ≡ true
    → finish_round aes h node result ≡ ok turn
    → MutexAfter aes h before turn
unfolding finish_round
finish_round-MutexAfter aes h before node stops turn held e =
    let end : returns node ≡ turn = cc in
    subst (MutexAfter aes h before) end (send_table_request-waits aes h.peer_conn_info node held)
finish_round-MutexAfter aes h before node (handled none node') turn held e =
    let conn = record (conn_of h node') { locked = false } in
    let end : goes_on (set_conn h.peer_conn_info conn node') ≡ turn = cc in
    subst (MutexAfter aes h before) end (set_conn-locked h conn node')
finish_round-MutexAfter aes h before node (handled (some response) node') turn held e =
    let (sent, _, e') =
      >>=-eq-ok (send_message aes h.session_key h.base_iv (conn_of h node') response) _ e in
    let conn = record sent { locked = false } in
    let end : goes_on (set_conn h.peer_conn_info conn node') ≡ turn = cc in
    subst (MutexAfter aes h before) end (set_conn-locked h conn node')

treat_message-MutexAfter :
    (aes : Aes) (ln : Lnd) (h : Handler) (node : Node) (encrypted : Bytes) (turn : Turn)
    → treat_message aes ln h node encrypted ≡ ok turn
    → MutexAfter aes h node turn
unfolding treat_message
treat_message-MutexAfter aes ln h node encrypted turn e =
    elim (Bool-cases (conn_of h node).locked) [
      | inl held ↦
          let end : waits ≡ turn = cc (rw (held, treat_message) at e) in
          subst (MutexAfter aes h node) end held
      | inr free ↦
          let conn = conn_of h node in
          let node' =
            set_conn h.peer_conn_info
              (record conn { locked = true; seq_number = increment_seq_number conn.seq_number })
              node in
          let (nonce, _, e1) =
            >>=-eq-ok (get_nonce h.base_iv conn.seq_number) _ (rw (free, treat_message) at e) in
          let (message, _, e2) = >>=-eq-ok (decrypt_aes aes h.session_key nonce encrypted) _ e1 in
          let (result, _, e3) =
            >>=-eq-ok (handle_message aes ln h.peer_pub_key node' message) _ e2 in
          finish_round-MutexAfter aes h node node' result turn
            (set_conn-locked h
              (record conn { locked = true; seq_number = increment_seq_number conn.seq_number })
              node)
            e3
    ]

-- A round that has read a message releases the mutex if it goes on; if its handler returns, it keeps
-- the mutex, and the sender of table requests waits for it; it waits itself only for a held mutex.
pub handle_round-MutexAfter :
    (aes : Aes) (ln : Lnd) (h : Handler) (node : Node) (incoming encrypted left rest : Bytes)
    (turn : Turn)
    → read_message incoming ≡ some (encrypted, left)
    → handle_round aes ln h node incoming ≡ ok (turn, rest)
    → MutexAfter aes h node turn
unfolding handle_round
handle_round-MutexAfter aes ln h node incoming encrypted left rest turn read e =
    let (t, e1, e2) =
      >>=-eq-ok (treat_message aes ln h node encrypted) _ (rw (read, handle_round) at e) in
    let same : t ≡ turn = cc in
    treat_message-MutexAfter aes ln h node encrypted turn (e1 ∙ ap ok same)
