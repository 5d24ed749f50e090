-- ===== src/Peer/Connection/Link/Answer.antt =====
-- A table request of one peer of ldrlib/networking.go and its answer, over a link at rest.
use ld_routing.Base.{
  ◌+◌, ◌<◌, ◌^◌, ◌≡◌, refl, sym, ◌∙◌, ap, ap₂, subst, false, ◌++◌, [], length, drop, append-nil,
  drop-append-length,
}
use ld_routing.Base.Run.{ok}
use ld_routing.Base.Bytes.{Bytes, IsBytes}
use ld_routing.Db.{Db}
use ld_routing.Message.{process_table_request, process_table_response}
use ld_routing.Peer.Sequence.{increment_seq_number}
use ld_routing.Peer.Sequence.Count.{increment_seq_number-IsBytes}
use ld_routing.Peer.Cipher.{Aes, IsGcm}
use ld_routing.Peer.Connection.{ConnInfo, Node, set_conn, goes_on, frame}
use ld_routing.Peer.Connection.Loop.{Handler, handle_round}
use ld_routing.Peer.Connection.Frames.{advance}
use ld_routing.Peer.Connection.Exchange.{
  conn_of, IsReady, request, sealed, conn_of-set_conn, taken, answered, send_table_request-advance,
  handle_round-request, handle_round-response,
}
use ld_routing.Peer.Connection.Link.{
  Link, written, Ends, a_asks, a_reads, b_reads, IsResting, Steps, rest_here, step_then,
}

written-append :
    (h : Handler) (before after : Node) (bytes : Bytes)
    → (conn_of h after).sent ≡ (conn_of h before).sent ++ bytes
    → written h before after ≡ bytes
written-append h before after bytes e =
    let old = (conn_of h before).sent in
    ap (drop (length old)) e ∙ drop-append-length old bytes (length old) refl

-- A connection stays ready while its sequence number moves.
pub moved-IsReady :
    (h : Handler) (conn conn' : ConnInfo)
    → IsReady h conn
    → conn'.session_key ≡ conn.session_key
    → conn'.base_iv ≡ conn.base_iv
    → IsBytes 12 conn'.seq_number
    → conn'.locked ≡ false
    → IsReady h conn'
moved-IsReady h conn conn' ready key iv seq free = record {
  same_key = ready.same_key ∙ sym key;
  same_iv = ready.same_iv ∙ sym iv;
  session_key = ap length key ∙ ready.session_key;
  base_iv = ap length iv ∙ ready.base_iv;
  seq_number = seq;
  free = free;
}

-- The three nodes that an exchange goes through.
asked : Ends → Link → Node
asked e l = set_conn e.at_a.peer_conn_info (advance e.aes (conn_of e.at_a l.a) request) l.a

served : Ends → Link → Bytes → Node
served e l response =
    set_conn e.at_b.peer_conn_info (answered e.aes (conn_of e.at_b l.b) response)
      (set_conn e.at_b.peer_conn_info (taken (conn_of e.at_b l.b)) l.b)

informed : Ends → Link → Db → Node
informed e l db =
    let conn = taken (conn_of e.at_a (asked e l)) in
    set_conn e.at_a.peer_conn_info (record conn { locked = false })
      (record (set_conn e.at_a.peer_conn_info conn (asked e l)) { db = db })

conn_of-asked :
    (e : Ends) (l : Link) → conn_of e.at_a (asked e l) ≡ advance e.aes (conn_of e.at_a l.a) request
unfolding asked
conn_of-asked e l =
    conn_of-set_conn e.at_a.peer_conn_info (advance e.aes (conn_of e.at_a l.a) request) l.a

asked-IsReady : (e : Ends) (l : Link) → IsResting e l → IsReady e.at_a (conn_of e.at_a (asked e l))
asked-IsReady e l resting =
    let conn = conn_of e.at_a l.a in
    subst (IsReady e.at_a) (sym (conn_of-asked e l)) (
      moved-IsReady e.at_a conn (advance e.aes conn request) resting.ready_a refl refl
        (increment_seq_number-IsBytes 12 conn.seq_number resting.ready_a.seq_number)
        resting.ready_a.free)

pub sealed-same :
    (aes : Aes) (c d : ConnInfo) (message : Bytes)
    → c.session_key ≡ d.session_key
    → c.base_iv ≡ d.base_iv
    → c.seq_number ≡ d.seq_number
    → sealed aes c message ≡ sealed aes d message
sealed-same aes c d message hk hi hs = rw (hk, hi, hs) refl

-- What one end has written in front of nothing is what the other end reads.
pub frame-written :
    (h : Handler) (before after : Node) (waiting bytes bytes' : Bytes)
    → waiting ≡ []
    → (conn_of h after).sent ≡ (conn_of h before).sent ++ frame bytes
    → bytes ≡ bytes'
    → waiting ++ written h before after ≡ frame bytes' ++ []
frame-written h before after waiting bytes bytes' hw sent same =
    ap₂ (λ x y. x ++ y) hw (written-append h before after (frame bytes) sent ∙ ap frame same)
    ∙ sym (append-nil (frame bytes'))

frame-asked :
    (e : Ends) (l : Link)
    → IsResting e l
    → l.to_b ++ written e.at_a l.a (asked e l)
      ≡ frame (sealed e.aes (conn_of e.at_b l.b) request) ++ []
frame-asked e l resting =
    let conn = conn_of e.at_a l.a in
    frame-written e.at_a l.a (asked e l) l.to_b (sealed e.aes conn request)
      (sealed e.aes (conn_of e.at_b l.b) request) resting.empty_b
      (ap (λ (c : ConnInfo). c.sent) (conn_of-asked e l))
      (sealed-same e.aes conn (conn_of e.at_b l.b) request resting.session_key resting.base_iv
        resting.seq_number)

conn_of-served :
    (e : Ends) (l : Link) (response : Bytes)
    → conn_of e.at_b (served e l response) ≡ answered e.aes (conn_of e.at_b l.b) response
unfolding served
conn_of-served e l response =
    conn_of-set_conn e.at_b.peer_conn_info (answered e.aes (conn_of e.at_b l.b) response)
      (set_conn e.at_b.peer_conn_info (taken (conn_of e.at_b l.b)) l.b)

frame-served :
    (e : Ends) (l : Link) (response : Bytes)
    → IsResting e l
    → l.to_a ++ written e.at_b l.b (served e l response)
      ≡ frame (sealed e.aes (conn_of e.at_a (asked e l)) response) ++ []
frame-served e l response resting =
    let conn = conn_of e.at_b l.b in
    let same = conn_of-asked e l in
    frame-written e.at_b l.b (served e l response) l.to_a (sealed e.aes (taken conn) response)
      (sealed e.aes (conn_of e.at_a (asked e l)) response) resting.empty_a
      (ap (λ (c : ConnInfo). c.sent) (conn_of-served e l response))
      (sealed-same e.aes (taken conn) (conn_of e.at_a (asked e l)) response
        (sym (ap (λ (c : ConnInfo). c.session_key) same ∙ resting.session_key))
        (sym (ap (λ (c : ConnInfo). c.base_iv) same ∙ resting.base_iv))
        (sym
          (ap (λ (c : ConnInfo). c.seq_number) same ∙ ap increment_seq_number resting.seq_number)))

conn_of-informed :
    (e : Ends) (l : Link) (db : Db)
    → conn_of e.at_a (informed e l db)
      ≡ record (taken (advance e.aes (conn_of e.at_a l.a) request)) { locked = false }
unfolding informed
conn_of-informed e l db =
    let conn = taken (conn_of e.at_a (asked e l)) in
    conn_of-set_conn e.at_a.peer_conn_info (record conn { locked = false })
      (record (set_conn e.at_a.peer_conn_info conn (asked e l)) { db = db })
    ∙ ap (λ (c : ConnInfo). record (taken c) { locked = false }) (conn_of-asked e l)

-- An exchange leaves the link at rest again.
informed-IsResting :
    (e : Ends) (l : Link) (response : Bytes) (db : Db)
    → IsResting e l
    → IsResting e (record {
      a = informed e l db;
      b = served e l response;
      to_a = [];
      to_b = [] ++ written e.at_a (asked e l) (informed e l db);
    })
informed-IsResting e l response db resting =
    let ca = conn_of e.at_a l.a in
    let cb = conn_of e.at_b l.b in
    let da : ConnInfo = record (taken (advance e.aes ca request)) { locked = false } in
    let db' = answered e.aes cb response in
    let one = increment_seq_number-IsBytes 12 ca.seq_number resting.ready_a.seq_number in
    let one' = increment_seq_number-IsBytes 12 cb.seq_number resting.ready_b.seq_number in
    let two = increment_seq_number-IsBytes 12 (increment_seq_number ca.seq_number) one in
    let two' = increment_seq_number-IsBytes 12 (increment_seq_number cb.seq_number) one' in
    let at_a = conn_of-informed e l db in
    let at_b = conn_of-served e l response in
    let silent = written-append e.at_a (asked e l) (informed e l db) [] (
      ap (λ (c : ConnInfo). c.sent) at_a
      ∙ sym (
          append-nil (conn_of e.at_a (asked e l)).sent
          ∙ ap (λ (c : ConnInfo). c.sent) (conn_of-asked e l))) in
    record {
      empty_a = refl;
      empty_b = silent;
      ready_a =
          subst (IsReady e.at_a) (sym at_a)
            (moved-IsReady e.at_a ca da resting.ready_a refl refl two refl);
      ready_b =
          subst (IsReady e.at_b) (sym at_b)
            (moved-IsReady e.at_b cb db' resting.ready_b refl refl two' refl);
      session_key =
          ap (λ (c : ConnInfo). c.session_key) at_a
          ∙ resting.session_key
          ∙ sym (ap (λ (c : ConnInfo). c.session_key) at_b);
      base_iv =
          ap (λ (c : ConnInfo). c.base_iv) at_a
          ∙ resting.base_iv
          ∙ sym (ap (λ (c : ConnInfo). c.base_iv) at_b);
      seq_number =
          ap (λ (c : ConnInfo). c.seq_number) at_a
          ∙ ap (λ seq. increment_seq_number (increment_seq_number seq)) resting.seq_number
          ∙ sym (ap (λ (c : ConnInfo). c.seq_number) at_b);
    }

-- From a link at rest, a table request of one end leads by three steps back to rest: the other end
-- answers from its database, which it keeps, and the first end has the database that the response
-- makes of its own. The cipher is one that opens what it seals, the response with its tag has fewer
-- than 2^16 bytes, and its processing ends well.
pub asks-IsResting :
    (e : Ends) (l : Link) (response : Bytes) (db : Db)
    → IsGcm e.aes
    → IsResting e l
    → process_table_request l.b.db request ≡ ok response
    → length response + 16 < 2 ^ 16
    → process_table_response response l.a.db e.at_a.peer_pub_key e.ln_a ≡ ok db
    → (l' : Link) × Steps e l l' × IsResting e l' × (l'.a.db ≡ db) × (l'.b.db ≡ l.b.db)
unfolding asked served informed set_conn
asks-IsResting e l response db gcm resting answer few result =
    let ask = send_table_request-advance e.aes e.at_a l.a gcm resting.ready_a in
    let serve : handle_round e.aes e.ln_b e.at_b l.b (l.to_b ++ written e.at_a l.a (asked e l))
        ≡ ok (goes_on (served e l response), []) =
      ap (handle_round e.aes e.ln_b e.at_b l.b) (frame-asked e l resting)
      ∙ handle_round-request e.aes e.ln_b e.at_b l.b response [] gcm resting.ready_b answer in
    let inform : handle_round e.aes e.ln_a e.at_a (asked e l)
          (l.to_a ++ written e.at_b l.b (served e l response))
        ≡ ok (goes_on (informed e l db), []) =
      ap (handle_round e.aes e.ln_a e.at_a (asked e l)) (frame-served e l response resting)
      ∙ handle_round-response e.aes e.ln_a e.at_a (asked e l) response [] db gcm
          (asked-IsReady e l resting) few result in
    (
      _,
      step_then (a_asks (asked e l) ask) (
          step_then (b_reads (served e l response) [] serve)
            (step_then (a_reads (informed e l db) [] inform) rest_here)),
      informed-IsResting e l response db resting,
      refl,
      refl,
    )
