-- ===== src/Peer/Connection/Link.antt =====
-- Two peers of ldrlib/networking.go and the bytes on their way between them.
pub mod Answer
pub mod Crossing
use ld_routing.Base.{
  ℕ, ◌+◌, ◌<◌, ◌^◌, ◌≡◌, refl, sym, ◌∙◌, ap, ap₂, subst, false, ◌++◌, [], length, drop, arith,
  append-nil, drop-append-length,
}
use ld_routing.Base.Run.{Run, ok, ◌>>=◌, for_each}
use ld_routing.Base.Bytes.{Bytes, IsBytes}
use ld_routing.Db.{Db}
use ld_routing.Db.Lnd.{Lnd}
use ld_routing.Message.{process_table_request, process_table_response}
use ld_routing.Peer.Sequence.{increment_seq_number}
use ld_routing.Peer.Sequence.Count.{increment_seq_number-IsBytes}
use ld_routing.Peer.Cipher.{Aes, IsGcm}
use ld_routing.Peer.Connection.{ConnInfo, Node, set_conn, Turn, goes_on, frame, send_table_request}
use ld_routing.Peer.Connection.Loop.{Handler, handle_round}
use ld_routing.Peer.Connection.Frames.{advance}
use ld_routing.Peer.Connection.Exchange.{
  conn_of, IsReady, request, sealed, conn_of-set_conn, taken, answered, send_table_request-advance,
  handle_round-request, handle_round-response,
}

-- The two ends, and what each has still to read.
pub record Link : Type 0 where
  pub a : Node
  pub b : Node
  pub to_a : Bytes
  pub to_b : Bytes

-- What a node wrote to a connection.
abbrev pub written : Handler → Node → Node → Bytes
written h before after = drop (length (conn_of h before).sent) (conn_of h after).sent

-- The handlers of the two ends, and their lightning nodes.
pub record Ends : Type 0 where
  pub aes : Aes
  pub ln_a : Lnd
  pub ln_b : Lnd
  pub at_a : Handler
  pub at_b : Handler

-- The timer of an end sends a table request, or the handler of an end reads a message.
pub data Step (e : Ends) : Link → Link → Type 0 where
  a_asks :
      {l : Link} (a' : Node)
      → send_table_request e.aes e.at_a.peer_conn_info l.a ≡ ok (goes_on a')
      → Step e l (record l { a = a'; to_b = l.to_b ++ written e.at_a l.a a' })
  b_asks :
      {l : Link} (b' : Node)
      → send_table_request e.aes e.at_b.peer_conn_info l.b ≡ ok (goes_on b')
      → Step e l (record l { b = b'; to_a = l.to_a ++ written e.at_b l.b b' })
  a_reads :
      {l : Link} (a' : Node) (rest : Bytes)
      → handle_round e.aes e.ln_a e.at_a l.a l.to_a ≡ ok (goes_on a', rest)
      → Step e l (record l { a = a'; to_a = rest; to_b = l.to_b ++ written e.at_a l.a a' })
  b_reads :
      {l : Link} (b' : Node) (rest : Bytes)
      → handle_round e.aes e.ln_b e.at_b l.b l.to_b ≡ ok (goes_on b', rest)
      → Step e l (record l { b = b'; to_b = rest; to_a = l.to_a ++ written e.at_b l.b b' })

-- A link at rest: nothing is on its way, and the two ends are ready with the same session and the
-- same sequence number.
pub record IsResting (e : Ends) (l : Link) : Type 0 where
  pub empty_a : l.to_a ≡ []
  pub empty_b : l.to_b ≡ []
  pub ready_a : IsReady e.at_a (conn_of e.at_a l.a)
  pub ready_b : IsReady e.at_b (conn_of e.at_b l.b)
  pub session_key : (conn_of e.at_a l.a).session_key ≡ (conn_of e.at_b l.b).session_key
  pub base_iv : (conn_of e.at_a l.a).base_iv ≡ (conn_of e.at_b l.b).base_iv
  pub seq_number : (conn_of e.at_a l.a).seq_number ≡ (conn_of e.at_b l.b).seq_number

pub data Steps (e : Ends) : Link → Link → Type 0 where
  rest_here : {l : Link} → Steps e l l
  step_then : {l l' l'' : Link} → Step e l l' → Steps e l' l'' → Steps e l l''
