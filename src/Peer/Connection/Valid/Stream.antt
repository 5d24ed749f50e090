-- ===== src/Peer/Connection/Valid/Stream.antt =====
-- handlePeerConnection of ldrlib/networking.go: a whole stream of bytes and the invariant of the
-- database.
use ld_routing.Base.{
  ℕ, zero, suc, ◌≡◌, refl, sym, subst, true, false, Option, none, some, inl, inr, Bool-cases,
  Option-cases,
}
use ld_routing.Base.Run.{Run, ok, err, panic, fatal, >>=-eq-ok}
use ld_routing.Base.Bytes.{Bytes}
use ld_routing.Wire.Types.{Ref}
use ld_routing.Db.Lnd.{Lnd}
use ld_routing.Db.Valid.{IsValid}
use ld_routing.Peer.Sequence.{get_nonce}
use ld_routing.Peer.Cipher.{Aes, decrypt_aes}
use ld_routing.Peer.Connection.{
  ConnInfo, Node, set_conn, send_message, Turn, goes_on, waits, returns,
}
use ld_routing.Peer.Connection.Dispatch.{Handled, handled, stops, handle_message}
use ld_routing.Peer.Connection.Loop.{
  Handler, read_message, finish_round, treat_message, handle_round, after_round, handle_rounds,
}
use ld_routing.Peer.Connection.Valid.{db-set_conn}
use ld_routing.Peer.Sequence.{increment_seq_number}
use ld_routing.Peer.Connection.Valid.Branches.{HandledIsValid, handle_message-IsValid}

ok-injective : {A : Type 0} {a b : A} → ok a ≡ ok b → a ≡ b
ok-injective h = cc

some-injective : {A : Type 0} {a b : A} → some a ≡ some b → a ≡ b
some-injective h = cc

-- The database that a round leaves is valid.
abbrev pub TurnIsValid : Turn → Type 0
TurnIsValid (goes_on node) = IsValid node.db
TurnIsValid waits = Unit
TurnIsValid (returns node) = IsValid node.db

kept :
    (r : Ref) (conn : ConnInfo) (node : Node) → IsValid node.db → IsValid (set_conn r conn node).db
kept r conn node v = subst IsValid (sym (db-set_conn r conn node)) v

finish_round-IsValid :
    (aes : Aes) (h : Handler) (node : Node) (result : Handled) (turn : Turn)
    → finish_round aes h node result ≡ ok turn
    → IsValid node.db
    → HandledIsValid result
    → TurnIsValid turn
unfolding finish_round
finish_round-IsValid aes h node stops turn e v w = subst TurnIsValid (ok-injective e) v
finish_round-IsValid aes h node (handled none node') turn e v w =
    let conn = record (node'.conn_infos h.peer_conn_info) { locked = false } in
    subst TurnIsValid (ok-injective e) (kept h.peer_conn_info conn node' w)
finish_round-IsValid aes h node (handled (some response) node') turn e v w =
    let (conn, _, e1) =
      >>=-eq-ok
        (send_message aes h.session_key h.base_iv (node'.conn_infos h.peer_conn_info) response) _
        e in
    subst TurnIsValid (ok-injective e1)
      (kept h.peer_conn_info (record conn { locked = false }) node' w)

treat_message-IsValid :
    (aes : Aes) (ln : Lnd) (h : Handler) (node : Node) (encrypted : Bytes) (turn : Turn)
    → treat_message aes ln h node encrypted ≡ ok turn
    → IsValid node.db
    → TurnIsValid turn
unfolding treat_message
treat_message-IsValid aes ln h node encrypted turn e v =
    let conn = node.conn_infos h.peer_conn_info in
    let next = record conn { locked = true; seq_number = increment_seq_number conn.seq_number } in
    let node' = set_conn h.peer_conn_info next node in
    elim (Bool-cases conn.locked) [
      | inl held ↦ subst TurnIsValid (ok-injective (rw (held, treat_message) at e)) tt
      | inr free ↦
          let (nonce, _, e1) =
            >>=-eq-ok (get_nonce h.base_iv conn.seq_number) _ (rw (free, treat_message) at e) in
          let (message, _, e2) = >>=-eq-ok (decrypt_aes aes h.session_key nonce encrypted) _ e1 in
          let (result, e3, e4) =
            >>=-eq-ok (handle_message aes ln h.peer_pub_key node' message) _ e2 in
          let v' = kept h.peer_conn_info next node v in
          finish_round-IsValid aes h node' result turn e4 v'
            (handle_message-IsValid aes ln h.peer_pub_key node' message result e3 v')
    ]

handle_round-IsValid :
    (aes : Aes) (ln : Lnd) (h : Handler) (node : Node) (incoming rest : Bytes) (turn : Turn)
    → handle_round aes ln h node incoming ≡ ok (turn, rest)
    → IsValid node.db
    → TurnIsValid turn
unfolding handle_round
handle_round-IsValid aes ln h node incoming rest turn e v =
    elim (Option-cases (read_message incoming)) [
      | inl none_ ↦
          subst (λ (p : Turn × Bytes). TurnIsValid p.0)
            (ok-injective (rw (none_, handle_round) at e)) v
      | inr ((encrypted, left), some_) ↦
          let (t, e1, e2) =
            >>=-eq-ok (treat_message aes ln h node encrypted) _ (rw (some_, handle_round) at e) in
          subst (λ (p : Turn × Bytes). TurnIsValid p.0) (ok-injective e2)
            (treat_message-IsValid aes ln h node encrypted t e1 v)
    ]

after_round-IsValid :
    (again : Option (Run Turn)) (next : Node → Bytes → Option (Run Turn))
    (round : Run (Turn × Bytes)) (turn : Turn)
    → (again ≡ some (ok turn) → TurnIsValid turn)
    → ((turn : Turn) (rest : Bytes) → round ≡ ok (turn, rest) → TurnIsValid turn)
    → ((node : Node) (rest : Bytes)
        → IsValid node.db
        → next node rest ≡ some (ok turn)
        → TurnIsValid turn)
    → after_round again next round ≡ some (ok turn)
    → TurnIsValid turn
unfolding after_round
after_round-IsValid again next (ok (goes_on node, rest)) turn still now later e =
    later node rest (now (goes_on node) rest refl) e
after_round-IsValid again next (ok (waits, rest)) turn still now later e = still e
after_round-IsValid again next (ok (returns node, rest)) turn still now later e =
    subst TurnIsValid (ok-injective (some-injective e)) (now (returns node) rest refl)
after_round-IsValid again next (err x) turn still now later e = absurd (cc (some-injective e))
after_round-IsValid again next panic turn still now later e = absurd (cc (some-injective e))
after_round-IsValid again next fatal turn still now later e = absurd (cc (some-injective e))

-- Whatever bytes a peer sends, a database that was valid is valid when the handler of the connection
-- returns, if the other goroutines keep it valid between the rounds and while the handler waits.
pub handle_rounds-IsValid :
    (aes : Aes) (ln : Lnd) (h : Handler) (others : ℕ → Node → Node) (fuel : ℕ) (node : Node)
    (incoming : Bytes) (turn : Turn)
    → ((n : ℕ) (node : Node) → IsValid node.db → IsValid (others n node).db)
    → IsValid node.db
    → handle_rounds aes ln h others fuel node incoming ≡ some (ok turn)
    → TurnIsValid turn
unfolding handle_rounds
handle_rounds-IsValid aes ln h others zero node incoming turn keep v e = absurd cc
handle_rounds-IsValid aes ln h others (suc fuel) node incoming turn keep v e =
    let now = others fuel node in
    after_round-IsValid (handle_rounds aes ln h others fuel now incoming)
      (handle_rounds aes ln h others fuel) (handle_round aes ln h now incoming) turn
      (λ e1.
        handle_rounds-IsValid aes ln h others fuel now incoming turn keep (keep fuel node v) e1)
      (λ t rest e1. handle_round-IsValid aes ln h now incoming rest t e1 (keep fuel node v))
      (λ node' rest v' e1. handle_rounds-IsValid aes ln h others fuel node' rest turn keep v' e1) e
