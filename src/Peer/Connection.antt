-- ===== src/Peer/Connection.antt =====
-- The connections of ldrlib/networking.go, with ForwardRoute and sendTableRequestPeriodically of ldrlib/networking.go.
-- A connection is the bytes that are written to it. A failed Write is only logged, so it changes nothing here.
pub mod Dispatch
pub mod Loop
pub mod Termination
pub mod Mutex
pub mod Relay
pub mod Valid
pub mod Frames
pub mod Exchange
pub mod Link
use ld_routing.Base.{
  ℕ, zero, suc, ◌+◌, ◌%◌, ◌^◌, Bool, true, false, Option, none, some, [], ◌∷◌, ◌++◌, ◌==◌,
  if◌then◌else◌, length, drop, replicate,
}
use ld_routing.Base.Run.{Run, ok, err, panic, fatal, ◌>>=◌, or_panic}
use ld_routing.Base.Bytes.{Bytes, bytes_eq, slice, put_be, be}
use ld_routing.Wire.Types.{Ref, Route}
use ld_routing.Db.{Db, genesis_block, zero_address, get_local_address}
use ld_routing.Db.Addresses.{get_node_address, get_peer_conn, add_peer_conn_to_db, get_dest_conn}
use ld_routing.Db.Disk.{read_into}
use ld_routing.Db.Lnd.{Lnd}
use ld_routing.Message.{
  table_request_type, table_response_type, forward_route_type, create_forward_route_message,
  process_forward_route_message, create_table_request, process_table_request,
  process_table_response,
}
use ld_routing.Route.{add_hop_to_route, send_route_to_sender}
use ld_routing.Peer.Sequence.{increment_seq_number, get_nonce}
use ld_routing.Peer.Cipher.{Aes, encrypt_aes, decrypt_aes}

-- connInfo: `locked` is its mutex, `sent` what was written to its `conn`.
pub record ConnInfo : Type 0 where
  pub locked : Bool
  pub session_key : Bytes
  pub base_iv : Bytes
  pub seq_number : Bytes
  pub sent : Bytes

-- The database and the connections that its pointers lead to.
pub record Node : Type 0 where
  pub db : Db
  pub conn_infos : Ref → ConnInfo
  pub next_conn : Ref

unfoldable pub set_conn : Ref → ConnInfo → Node → Node
set_conn r conn node = record node { conn_infos = λ q. if q == r then conn else node.conn_infos q }

-- What the four senders of a message share: it is sealed under the next nonce and written behind its
-- length, which is cut to 16 bits.
unfoldable pub frame : Bytes → Bytes
frame encrypted = put_be 2 (length encrypted % 2 ^ 16) ++ encrypted

unfoldable pub send_message : Aes → Bytes → Bytes → ConnInfo → Bytes → Run ConnInfo
send_message aes session_key base_iv conn message = do
  nonce ← get_nonce base_iv conn.seq_number
  encrypted ← encrypt_aes aes session_key nonce message
  ok (record conn {
    seq_number = increment_seq_number conn.seq_number;
    sent = conn.sent ++ frame encrypted;
  })

-- The mutex is neither taken nor tested.
unfoldable pub forward_route : Aes → Route → Bytes → Node → Run Node
forward_route aes route address node = do
  found ← get_peer_conn node.db address
  r ← or_panic found
  let conn = node.conn_infos r
  conn' ← send_message aes conn.session_key conn.base_iv conn (create_forward_route_message route)
  ok (set_conn r conn' node)

-- What a goroutine has done: it goes on, waits for a mutex that is held, or has returned.
pub data Turn : Type 0 where
  goes_on : Node → Turn
  waits : Turn
  returns : Node → Turn

-- One round of sendTableRequestPeriodically, between two sleeps.
unfoldable pub send_table_request : Aes → Ref → Node → Run Turn
send_table_request aes r node = elim (create_table_request genesis_block) [
  | err e ↦ ok (returns node)
  | panic ↦ panic
  | fatal ↦ fatal
  | ok request ↦
      let conn = node.conn_infos r in
      if conn.locked then ok waits else do
        conn' ← send_message aes conn.session_key conn.base_iv conn request
        ok (goes_on (set_conn r conn' node))
]
