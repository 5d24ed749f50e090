-- ===== src/Peer/Connection/Termination.antt =====
-- The loop of handlePeerConnection of ldrlib/networking.go comes to an end with its stream.
use ld_routing.Base.{
  ℕ, zero, suc, ◌+◌, ◌*◌, ◌<◌, ◌≤◌, ◌≡◌, ◌≢◌, true, false, refl, sym, subst, ap, Option, some, [],
  ◌∷◌, length, drop, arith, inl, inr, Option-cases,
}
use ld_routing.Base.Run.{Run, ok, err, panic, fatal, >>=-eq-ok}
use ld_routing.Base.Bytes.{Bytes, be}
use ld_routing.Db.Lnd.{Lnd}
use ld_routing.Wire.Types.{Ref}
use ld_routing.Db.Addresses.{get_node_address, add_peer_conn_to_db}
use ld_routing.Peer.Connection.Mutex.{handle_round-MutexAfter}
use ld_routing.Peer.Cipher.{Aes}
use ld_routing.Peer.Connection.{Node, Turn, goes_on, waits, returns}
use ld_routing.Peer.Connection.Loop.{
  Handler, read, read_message, treat_message, handle_round, after_round, handle_rounds,
  start_connection, once_started, handle_peer_connection,
}

length-drop : (n : ℕ) (bs : Bytes) → length (drop n bs) ≤ length bs
length-drop zero bs = omega arith
length-drop (suc n) [] = omega arith
length-drop (suc n) (b ∷ bs) = omega (arith, length-drop n bs)

-- A Read takes nothing back, and one of a positive size takes something.
read-length :
    (n : ℕ) (incoming taken rest : Bytes)
    → read n incoming ≡ some (taken, rest)
    → (length rest ≤ length incoming) × (0 < n → length rest < length incoming)
unfolding read
read-length zero incoming taken rest h =
    let e : incoming ≡ rest = cc in (omega (arith, ap length e), λ p. absurd (omega (arith, p)))
read-length (suc n) [] taken rest h = absurd cc
read-length (suc n) (b ∷ incoming) taken rest h =
    let e : drop n incoming ≡ rest = cc in
    let l = length-drop n incoming in (omega (arith, ap length e), λ _. omega (arith, ap length e))

read_message-length :
    (incoming message rest : Bytes)
    → read_message incoming ≡ some (message, rest)
    → length rest < length incoming
unfolding read_message
read_message-length incoming message rest h = elim (Option-cases (read 2 incoming)) [
  | inl e ↦ absurd (cc (rw (e, read_message) at h))
  | inr ((size, left), e) ↦
      let first = (read-length 2 incoming size left e).1 (omega arith) in
      let second = (read-length (be size) left message rest (rw (e, read_message) at h)).0 in
      omega (arith, first, second)
]

handle_round-length :
    (aes : Aes) (ln : Lnd) (h : Handler) (node : Node) (incoming : Bytes) (node' : Node)
    (rest : Bytes)
    → handle_round aes ln h node incoming ≡ ok (goes_on node', rest)
    → length rest < length incoming
unfolding handle_round
handle_round-length aes ln h node incoming node' rest e =
    elim (Option-cases (read_message incoming)) [
      | inl e1 ↦ absurd (cc (rw (e1, handle_round) at e))
      | inr ((encrypted, left), e1) ↦
          let (t, _, e2) =
            >>=-eq-ok (treat_message aes ln h node encrypted) _ (rw (e1, handle_round) at e) in
          let same : left ≡ rest = cc in
          omega (arith, read_message-length incoming encrypted left e1, ap length same)
    ]

ok-injective : {A : Type 0} {a b : A} → ok a ≡ ok b → a ≡ b
ok-injective h = cc

-- A round waits only for a mutex that is held.
handle_round-waits :
    (aes : Aes) (ln : Lnd) (h : Handler) (node : Node) (incoming rest : Bytes)
    → handle_round aes ln h node incoming ≡ ok (waits, rest)
    → (node.conn_infos h.peer_conn_info).locked ≡ true
unfolding handle_round
handle_round-waits aes ln h node incoming rest e = elim (Option-cases (read_message incoming)) [
  | inl e1 ↦ absurd (cc (rw (e1, handle_round) at e))
  | inr ((encrypted, left), e1) ↦
      handle_round-MutexAfter aes ln h node incoming encrypted left rest waits e1 e
]

-- The goroutine neither goes on nor waits.
abbrev pub IsEnd : Run Turn → Type 0
IsEnd (ok (goes_on node)) = ⊥
IsEnd (ok waits) = ⊥
IsEnd (ok (returns node)) = Unit
IsEnd (err e) = Unit
IsEnd panic = Unit
IsEnd fatal = Unit

abbrev pub HasEnded : Option (Run Turn) → Type 0
HasEnded result = (end : Run Turn) × (result ≡ some end) × IsEnd end

-- The loop ends where a round that goes on is followed by an end, and so is a round that waits.
after_round-ends :
    (again : Option (Run Turn)) (next : Node → Bytes → Option (Run Turn))
    (round : Run (Turn × Bytes))
    → ((rest : Bytes) → round ≡ ok (waits, rest) → HasEnded again)
    → ((node : Node) (rest : Bytes) → round ≡ ok (goes_on node, rest) → HasEnded (next node rest))
    → HasEnded (after_round again next round)
unfolding after_round
after_round-ends again next (ok (goes_on node, rest)) w h = h node rest refl
after_round-ends again next (ok (waits, rest)) w h = w rest refl
after_round-ends again next (ok (returns node, rest)) w h = (ok (returns node), refl, tt)
after_round-ends again next (err e) w h = (err e, refl, tt)
after_round-ends again next panic w h = (panic, refl, tt)
after_round-ends again next fatal w h = (fatal, refl, tt)

-- The mutex of a connection is free at every `suc period`-th moment, however it is held between.
abbrev pub IsReleased : (ℕ → Node → Node) → ℕ → Ref → Type 0
IsReleased others period r =
    (k : ℕ) (node : Node) → ((others (suc period * k) node).conn_infos r).locked ≡ false

held :
    (others : ℕ → Node → Node) (h : Handler) (moment : ℕ) (node : Node) (ln : Lnd) (aes : Aes)
    (incoming rest : Bytes)
    → handle_round aes ln h (others moment node) incoming ≡ ok (waits, rest)
    → ((others moment node).conn_infos h.peer_conn_info).locked ≢ false
held others h moment node ln aes incoming rest e free =
    let taken = handle_round-waits aes ln h (others moment node) incoming rest e in cc

-- With `k` free moments ahead, the last of them `r` moments away, a stream of at most `k` bytes ends.
handle_rounds-ends :
    (aes : Aes) (ln : Lnd) (h : Handler) (others : ℕ → Node → Node) (period : ℕ)
    → IsReleased others period h.peer_conn_info
    → (moment k r : ℕ) (node : Node) (incoming : Bytes) → moment ≡ suc period * k + r
    → r ≤ period
    → length incoming ≤ k
    → HasEnded (handle_rounds aes ln h others (suc moment) node incoming)
unfolding handle_rounds
handle_rounds-ends aes ln h others period free zero k (suc r) node incoming at_ near few =
    absurd (omega (arith, at_))
handle_rounds-ends aes ln h others period free (suc moment) k (suc r) node incoming at_ near few =
    let now = others (suc moment) node in
    let later = handle_rounds-ends aes ln h others period free moment k r in
    after_round-ends (handle_rounds aes ln h others (suc moment) now incoming)
      (handle_rounds aes ln h others (suc moment)) (handle_round aes ln h now incoming)
      (λ rest e. later now incoming (omega (arith, at_)) (omega (arith, near)) few)
      (λ node' rest e.
        later node' rest (omega (arith, at_)) (omega (arith, near))
          (omega (arith, few, handle_round-length aes ln h now incoming node' rest e)))
handle_rounds-ends aes ln h others period free moment zero zero node incoming at_ near few =
    let now = others moment node in
    let here : moment ≡ suc period * 0 = omega (arith, at_) in
    after_round-ends (handle_rounds aes ln h others moment now incoming)
      (handle_rounds aes ln h others moment) (handle_round aes ln h now incoming)
      (λ rest e.
        absurd (held others h moment node ln aes incoming rest e (rw here (free zero node))))
      (λ node' rest e.
        absurd (omega (arith, few, handle_round-length aes ln h now incoming node' rest e)))
handle_rounds-ends aes ln h others period free zero (suc k) zero node incoming at_ near few =
    absurd (omega (arith, at_))
handle_rounds-ends aes ln h others period free (suc moment) (suc k) zero node incoming at_ near
      few =
    let now = others (suc moment) node in
    let here : suc moment ≡ suc period * suc k = omega (arith, at_) in
    after_round-ends (handle_rounds aes ln h others (suc moment) now incoming)
      (handle_rounds aes ln h others (suc moment)) (handle_round aes ln h now incoming)
      (λ rest e.
        absurd
          (held others h (suc moment) node ln aes incoming rest e (rw here (free (suc k) node))))
      (λ node' rest e.
        handle_rounds-ends aes ln h others period free moment k period node' rest
          (omega (arith, at_)) (omega arith)
          (omega (arith, few, handle_round-length aes ln h now incoming node' rest e)))

once_started-ends :
    (next : Handler → Node → Option (Run Turn)) (start : Run (Handler × Node))
    → ((h : Handler) (node : Node) → start ≡ ok (h, node) → HasEnded (next h node))
    → HasEnded (once_started next start)
unfolding once_started
once_started-ends next (ok (h, node)) e = e h node refl
once_started-ends next (err x) e = (err x, refl, tt)
once_started-ends next panic e = (panic, refl, tt)
once_started-ends next fatal e = (fatal, refl, tt)

-- The handler keeps its connection under the next number.
start_connection-next_conn :
    (session_key base_iv start_seq peer_pub_key : Bytes) (node node' : Node) (h : Handler)
    → start_connection session_key base_iv start_seq peer_pub_key node ≡ ok (h, node')
    → h.peer_conn_info ≡ node.next_conn
unfolding start_connection
start_connection-next_conn session_key base_iv start_seq peer_pub_key node node' h e =
    let ((address, known), _, e1) = >>=-eq-ok (get_node_address node.db peer_pub_key) _ e in
    let (db, _, e2) = >>=-eq-ok (add_peer_conn_to_db node.db address node.next_conn) _ e1 in
    ap (λ (p : Handler × Node). p.0.peer_conn_info) (sym (ok-injective e2))

-- Whatever bytes a peer sends before its stream ends, and whatever the other goroutines do between
-- the rounds and during the waits, if the mutex of the connection is free at every `suc period`-th
-- moment at least: with fuel for that many moments for each byte and one more, the handler ends, by a
-- return, an error, a panic or the end of the process. It neither waits nor runs out of fuel.
pub handle_peer_connection-ends :
    (aes : Aes) (ln : Lnd) (others : ℕ → Node → Node) (period : ℕ)
    (session_key base_iv start_seq peer_pub_key : Bytes) (node : Node) (incoming : Bytes)
    → IsReleased others period node.next_conn
    → HasEnded (
        handle_peer_connection aes ln others
          (suc (suc period * length incoming))
          session_key
          base_iv
          start_seq
          peer_pub_key
          node
          incoming)
unfolding handle_peer_connection
handle_peer_connection-ends aes ln others period session_key base_iv start_seq peer_pub_key node
      incoming free =
    let fuel = suc (suc period * length incoming) in
    once_started-ends (λ h node'. handle_rounds aes ln h others fuel node' incoming)
      (start_connection session_key base_iv start_seq peer_pub_key node)
      (λ h node' e.
        let same =
          start_connection-next_conn session_key base_iv start_seq peer_pub_key node node' h e in
        handle_rounds-ends aes ln h others period (subst (IsReleased others period) (sym same) free)
          (suc period * length incoming) (length incoming) 0 node' incoming (omega arith)
          (omega arith) (omega arith))
