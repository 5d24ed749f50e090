-- ===== src/Peer/Connection/Link/Crossing.antt =====
-- Two peers of ldrlib/networking.go that ask at the same time.
use ld_routing.Base.{◌≡◌, refl, sym, ◌∙◌, ap, subst, none, ◌≢◌, ◌++◌, [], length, arith}
use ld_routing.Base.Run.{fatal}
use ld_routing.Base.Bytes.{Bytes}
use ld_routing.Db.Lnd.{Lnd}
use ld_routing.Peer.Sequence.{increment_seq_number}
use ld_routing.Peer.Sequence.Count.{increment_seq_number-IsBytes}
use ld_routing.Peer.Sequence.Nonce.{nonce_of, nonce_of-after, get_nonce-nonce_of, length-nonce_of}
use ld_routing.Peer.Cipher.{Aes, IsGcm, decrypt_aes}
use ld_routing.Peer.Connection.{ConnInfo, Node, set_conn, frame}
use ld_routing.Peer.Connection.Loop.{Handler, treat_message, handle_round}
use ld_routing.Peer.Connection.Frames.{read_message-frame, advance}
use ld_routing.Peer.Connection.Exchange.{
  conn_of, IsReady, request, length-request, sealed, conn_of-set_conn, send_table_request-advance,
}
use ld_routing.Peer.Connection.Link.{
  Link, Ends, a_asks, b_asks, IsResting, Steps, rest_here, step_then,
}
use ld_routing.Peer.Connection.Link.Answer.{moved-IsReady, sealed-same, frame-written}

-- What the packages document of the cipher: a message opens only under the nonce of its sealing.
abbrev pub RefusesOtherNonces : Aes → Type 0
RefusesOtherNonces aes =
    (key nonce nonce' message : Bytes)
    → length nonce ≡ 12
    → length nonce' ≡ 12
    → nonce ≢ nonce'
    → aes.open_ key nonce' (aes.seal key nonce message) ≡ none

-- The nonces of a connection before and after a message.
nonce_of-step :
    (h : Handler) (conn : ConnInfo)
    → IsReady h conn
    → nonce_of conn.base_iv conn.seq_number
      ≢ nonce_of conn.base_iv (increment_seq_number conn.seq_number)
nonce_of-step h conn ready =
    nonce_of-after conn.base_iv conn.seq_number 0 1 ready.base_iv ready.seq_number (omega arith)
      (omega arith)

treat_message-refused :
    (aes : Aes) (ln : Lnd) (h : Handler) (node : Node) (encrypted : Bytes)
    → IsGcm aes
    → IsReady h (conn_of h node)
    → aes.open_
        (conn_of h node).session_key
        (nonce_of (conn_of h node).base_iv (conn_of h node).seq_number)
        encrypted
      ≡ none
    → treat_message aes ln h node encrypted ≡ fatal
unfolding treat_message decrypt_aes
treat_message-refused aes ln h node encrypted gcm ready refused =
    let conn = conn_of h node in
    let same : length conn.base_iv ≡ length conn.seq_number =
      ready.base_iv ∙ sym ready.seq_number.len in
    rw
      (
        ready.free,
        ready.same_iv,
        ready.same_key,
        get_nonce-nonce_of conn.base_iv conn.seq_number same,
        gcm.takes_key conn.session_key ready.session_key,
        gcm.takes_nonce (nonce_of conn.base_iv conn.seq_number)
            (length-nonce_of conn.base_iv conn.seq_number same ∙ ready.base_iv),
        refused,
      )
      refl

-- A node that has asked cannot read what the other end sealed before it read that.
crossed_read :
    (aes : Aes) (ln : Lnd) (h : Handler) (node : Node) (stream : Bytes)
    → IsGcm aes
    → RefusesOtherNonces aes
    → IsReady h (conn_of h node)
    → stream ≡ frame (sealed aes (conn_of h node) request) ++ []
    → handle_round aes ln h
        (set_conn h.peer_conn_info (advance aes (conn_of h node) request) node)
        stream
      ≡ fatal
unfolding handle_round
crossed_read aes ln h node stream gcm refuses ready e =
    let conn = conn_of h node in
    let next = advance aes conn request in
    let node' = set_conn h.peer_conn_info next node in
    let here = conn_of-set_conn h.peer_conn_info next node in
    let grown = increment_seq_number-IsBytes 12 conn.seq_number ready.seq_number in
    let nonce = nonce_of conn.base_iv conn.seq_number in
    let nonce' = nonce_of conn.base_iv (increment_seq_number conn.seq_number) in
    let size =
      length-nonce_of conn.base_iv conn.seq_number (ready.base_iv ∙ sym ready.seq_number.len)
      ∙ ready.base_iv in
    let size' =
      length-nonce_of conn.base_iv next.seq_number (ready.base_iv ∙ sym grown.len)
      ∙ ready.base_iv in
    let refused =
      refuses conn.session_key nonce nonce' request size size' (nonce_of-step h conn ready) in
    let ready' = moved-IsReady h conn next ready refl refl grown ready.free in
    let small = gcm.tag conn.session_key nonce request in
    let fatal' =
      treat_message-refused aes ln h node' (sealed aes conn request) gcm
        (subst (IsReady h) (sym here) ready')
        (subst
          (λ (c : ConnInfo).
            aes.open_ c.session_key (nonce_of c.base_iv c.seq_number) (sealed aes conn request)
            ≡ none)
          (sym here) refused) in
    rw
      (
        e,
        read_message-frame (sealed aes conn request) [] (omega (arith, small, length-request)),
        handle_round,
        fatal',
      )
      refl

-- From a link at rest, two steps lead to a link in which both ends have sent a table request, and
-- then the message that comes in ends the process of either end: the ends share one sequence number
-- for the two directions. The cipher is one that opens what it seals, under its nonce only.
pub asks-asks-fatal :
    (e : Ends) (l : Link)
    → IsGcm e.aes
    → RefusesOtherNonces e.aes
    → IsResting e l
    → (l' : Link) × Steps e l l'
      × (handle_round e.aes e.ln_a e.at_a l'.a l'.to_a ≡ fatal)
      × (handle_round e.aes e.ln_b e.at_b l'.b l'.to_b ≡ fatal)
asks-asks-fatal e l gcm refuses resting =
    let ca = conn_of e.at_a l.a in
    let cb = conn_of e.at_b l.b in
    let a' = set_conn e.at_a.peer_conn_info (advance e.aes ca request) l.a in
    let b' = set_conn e.at_b.peer_conn_info (advance e.aes cb request) l.b in
    let ask = send_table_request-advance e.aes e.at_a l.a gcm resting.ready_a in
    let ask' = send_table_request-advance e.aes e.at_b l.b gcm resting.ready_b in
    let sent =
      ap (λ (c : ConnInfo). c.sent)
        (conn_of-set_conn e.at_a.peer_conn_info (advance e.aes ca request) l.a) in
    let sent' =
      ap (λ (c : ConnInfo). c.sent)
        (conn_of-set_conn e.at_b.peer_conn_info (advance e.aes cb request) l.b) in
    let same =
      sealed-same e.aes ca cb request resting.session_key resting.base_iv resting.seq_number in
    let to_b =
      frame-written e.at_a l.a a' l.to_b (sealed e.aes ca request) (sealed e.aes cb request)
        resting.empty_b sent same in
    let to_a =
      frame-written e.at_b l.b b' l.to_a (sealed e.aes cb request) (sealed e.aes ca request)
        resting.empty_a sent' (sym same) in
    (
      _,
      step_then (a_asks a' ask) (step_then (b_asks b' ask') rest_here),
      crossed_read e.aes e.ln_a e.at_a l.a _ gcm refuses resting.ready_a to_a,
      crossed_read e.aes e.ln_b e.at_b l.b _ gcm refuses resting.ready_b to_b,
    )
