-- ===== src/Peer/Connection/Loop.antt =====
-- handlePeerConnection of ldrlib/networking.go: the loop that reads a connection. The bytes that
-- arrive are an argument, and a Read fills its buffer as far as they go.
use ld_routing.Base.{
  ℕ, zero, suc, ◌+◌, true, false, Option, none, some, [], ◌∷◌, if◌then◌else◌, drop, replicate,
}
use ld_routing.Base.Run.{Run, ok, err, panic, fatal, ◌>>=◌}
use ld_routing.Base.Bytes.{Bytes, be}
use ld_routing.Wire.Types.{Ref}
use ld_routing.Db.Addresses.{get_node_address, add_peer_conn_to_db}
use ld_routing.Db.Disk.{read_into}
use ld_routing.Db.Lnd.{Lnd}
use ld_routing.Peer.Sequence.{increment_seq_number, get_nonce}
use ld_routing.Peer.Cipher.{Aes, decrypt_aes}
use ld_routing.Peer.Connection.{Node, set_conn, send_message, Turn, goes_on, waits, returns}
use ld_routing.Peer.Connection.Dispatch.{Handled, handle_message, handled, stops}

-- What the variables of handlePeerConnection hold in all its rounds.
pub record Handler : Type 0 where
  pub peer_conn_info : Ref
  pub session_key : Bytes
  pub base_iv : Bytes
  pub peer_pub_key : Bytes

-- conn.Read into a new buffer of `n` bytes: none at the end of the stream.
unfoldable pub read : ℕ → Bytes → Option (Bytes × Bytes)
read zero incoming = some ([], incoming)
read (suc n) [] = none
read (suc n) (b ∷ incoming) =
    some (read_into (replicate (suc n) 0) (b ∷ incoming), drop (suc n) (b ∷ incoming))

-- The length of a message and the message.
unfoldable pub read_message : Bytes → Option (Bytes × Bytes)
unfolding read
read_message incoming = elim (read 2 incoming) [
  | none ↦ none
  | some (size, rest) ↦ read (be size) rest
]

-- The end of a round: the response is sent and the mutex released. A return keeps the mutex.
unfoldable pub finish_round : Aes → Handler → Node → Handled → Run Turn
finish_round aes h node stops = ok (returns node)
finish_round aes h node (handled none node') =
    let conn = node'.conn_infos h.peer_conn_info in
    ok (goes_on (set_conn h.peer_conn_info (record conn { locked = false }) node'))
finish_round aes h node (handled (some response) node') = do
  conn ← send_message aes h.session_key h.base_iv (node'.conn_infos h.peer_conn_info) response
  ok (goes_on (set_conn h.peer_conn_info (record conn { locked = false }) node'))

-- A round with a message that has come in.
unfoldable pub treat_message : Aes → Lnd → Handler → Node → Bytes → Run Turn
unfolding handle_message finish_round
treat_message aes ln_client h node encrypted =
    let conn = node.conn_infos h.peer_conn_info in
    if conn.locked then ok waits else do
      nonce ← get_nonce h.base_iv conn.seq_number
      message ← decrypt_aes aes h.session_key nonce encrypted
      let node' =
          set_conn h.peer_conn_info
            (record conn { locked = true; seq_number = increment_seq_number conn.seq_number }) node
      result ← handle_message aes ln_client h.peer_pub_key node' message
      finish_round aes h node' result

-- One round of the loop of handlePeerConnection, and the bytes that it leaves.
unfoldable pub handle_round : Aes → Lnd → Handler → Node → Bytes → Run (Turn × Bytes)
unfolding read_message treat_message
handle_round aes ln_client h node incoming = elim (read_message incoming) [
  | none ↦ ok (returns node, [])
  | some (encrypted, rest) ↦ do turn ← treat_message aes ln_client h node encrypted; ok (turn, rest)
]

-- What follows a round: the next one, the end of the goroutine or of the process, or, where the mutex
-- was held, the same round again, with the message that it has read.
unfoldable pub after_round :
    Option (Run Turn) → (Node → Bytes → Option (Run Turn)) → Run (Turn × Bytes) → Option (Run Turn)
after_round again next (ok (goes_on node, rest)) = next node rest
after_round again next (ok (waits, rest)) = again
after_round again next (ok (returns node, rest)) = some (ok (returns node))
after_round again next (err e) = some (err e)
after_round again next panic = some panic
after_round again next fatal = some fatal

-- The loop: `others` is what the other goroutines do before each round, and while a round waits for
-- the mutex. `none` is the end of the fuel: a handler that still reads, or still waits.
unfoldable pub handle_rounds :
    Aes → Lnd → Handler → (ℕ → Node → Node) → ℕ → Node → Bytes → Option (Run Turn)
unfolding after_round
handle_rounds aes ln_client h others zero node incoming = none
handle_rounds aes ln_client h others (suc fuel) node incoming =
    let now = others fuel node in
    after_round (handle_rounds aes ln_client h others fuel now incoming)
      (handle_rounds aes ln_client h others fuel) (handle_round aes ln_client h now incoming)

-- The start of handlePeerConnection: the connection is saved under the address of the peer.
unfoldable pub start_connection : Bytes → Bytes → Bytes → Bytes → Node → Run (Handler × Node)
start_connection session_key base_iv start_seq peer_pub_key node = do
  (address, _) ← get_node_address node.db peer_pub_key
  db ← add_peer_conn_to_db node.db address node.next_conn
  ok (
    record {
      peer_conn_info = node.next_conn;
      session_key = session_key;
      base_iv = base_iv;
      peer_pub_key = peer_pub_key;
    },
    set_conn node.next_conn
        (record {
          locked = false;
          session_key = session_key;
          base_iv = base_iv;
          seq_number = start_seq;
          sent = [];
        })
        (record node { db = db; next_conn = node.next_conn + 1 }),
  )

-- A panic or an end of the process before the first round.
unfoldable pub once_started :
    (Handler → Node → Option (Run Turn)) → Run (Handler × Node) → Option (Run Turn)
once_started next (ok (h, node)) = next h node
once_started next (err e) = some (err e)
once_started next panic = some panic
once_started next fatal = some fatal

-- handlePeerConnection, of at most `fuel` rounds and waits.
unfoldable pub handle_peer_connection :
    Aes
    → Lnd
    → (ℕ → Node → Node)
    → ℕ
    → Bytes
    → Bytes
    → Bytes
    → Bytes
    → Node
    → Bytes
    → Option (Run Turn)
unfolding start_connection handle_rounds once_started
handle_peer_connection aes ln_client others fuel session_key base_iv start_seq peer_pub_key node
      incoming =
    once_started (λ h node'. handle_rounds aes ln_client h others fuel node' incoming)
      (start_connection session_key base_iv start_seq peer_pub_key node)
