-- ===== src/Examples/Links.antt =====
-- The connections of ldrlib/networking.go at concrete values.
use ld_routing.Base.{
  ℕ, zero, suc, ◌%◌, ◌==◌, ◌<◌, ◌≡◌, refl, ap, ap₂, true, false, none, some, [], ◌∷◌, ◌++◌, arith,
  replicate, take, drop, length, length-append, drop-append-length, take-append-length,
  if◌then◌else◌, inl, inr, Bool-cases,
}
use ld_routing.Base.Int.{pos}
use ld_routing.Base.Run.{ok, fatal}
use ld_routing.Base.Bytes.{Bytes, bytes_eq, bytes_eq_iff, bytes_eq_refl}
use ld_routing.Db.{Db, create_db}
use ld_routing.Base.Bytes.{slice, put_be, be, put_le}
use ld_routing.Base.Int.{to_uint64}
use ld_routing.Db.Routing.{get_last_routing_entries}
use ld_routing.Stack.{peek_from_block}
use ld_routing.Wire.Codec.{serialize_destination, routing_entry_to_destination}
use ld_routing.Message.{process_table_request, serialize_destinations}
use ld_routing.Peer.Cipher.{Aes, IsGcm}
use ld_routing.Peer.Connection.{ConnInfo, Node}
use ld_routing.Peer.Connection.Loop.{Handler, handle_round, handle_peer_connection}
use ld_routing.Peer.Connection.Termination.{IsReleased, HasEnded, handle_peer_connection-ends}
use ld_routing.Peer.Connection.Exchange.{IsReady, request}
use ld_routing.Peer.Connection.{returns, set_conn, frame}
use ld_routing.Peer.Connection.Loop.{handle_rounds, after_round, read_message, read}
use ld_routing.Peer.Connection.Exchange.{taken, sealed, handle_round-response}
use ld_routing.Peer.Connection.Valid.Stream.{TurnIsValid, handle_rounds-IsValid}
use ld_routing.Peer.Connection.Link.{Link, Ends, Steps, IsResting}
use ld_routing.Peer.Connection.Link.Answer.{asks-IsResting}
use ld_routing.Peer.Connection.Link.Crossing.{asks-asks-fatal}
use ld_routing.Examples.Responses.{
  address_, key_, lnd_, before, response_, after, processed, before-IsValid,
}
use ld_routing.Peer.Connection.Link.Crossing.{RefusesOtherNonces}

-- The first `n` bytes, with zeros behind.
abbrev pub fit : ℕ → Bytes → Bytes
fit zero bs = []
fit (suc n) [] = 0 ∷ fit n []
fit (suc n) (b ∷ bs) = b ∷ fit n bs

length-fit : (n : ℕ) (bs : Bytes) → length (fit n bs) ≡ n
length-fit zero bs = refl
length-fit (suc n) [] = ap suc (length-fit n [])
length-fit (suc n) (b ∷ bs) = ap suc (length-fit n bs)

cons-injective : (a b : ℕ) (as_ bs : Bytes) → a ∷ as_ ≡ b ∷ bs → (a ≡ b) × (as_ ≡ bs)
cons-injective a b as_ bs e = (cc, cc)

fit-injective :
    (n m : ℕ) (a b : Bytes) → length a ≡ m → length b ≡ m → m < n → fit n a ≡ fit n b → a ≡ b
fit-injective n zero [] [] ha hb h e = refl
fit-injective zero m a b ha hb h e = absurd (omega (arith, h))
fit-injective (suc n) (suc m) (x ∷ a) (y ∷ b) ha hb h e =
    let (p, q) = cons-injective x y (fit n a) (fit n b) e in
    ap₂ (λ v vs. v ∷ vs) p
      (fit-injective n m a b (omega (arith, ha)) (omega (arith, hb)) (omega (arith, h)) q)
fit-injective n zero (x ∷ a) b ha hb h e = absurd (omega (arith, ha))
fit-injective n zero [] (y ∷ b) ha hb h e = absurd (omega (arith, hb))
fit-injective n (suc m) [] b ha hb h e = absurd (omega (arith, ha))
fit-injective n (suc m) (x ∷ a) [] ha hb h e = absurd (omega (arith, hb))

-- A cipher that puts the nonce in front, in sixteen bytes, and opens what has it there.
abbrev pub aes_ : Aes
aes_ = record {
  takes_key = λ key. true;
  takes_nonce = λ nonce. true;
  seal = λ key nonce message. fit 16 nonce ++ message;
  open_ = λ key nonce message.
      if bytes_eq (take 16 message) (fit 16 nonce) then some (drop 16 message) else none;
}

pub aes-IsGcm : IsGcm aes_
aes-IsGcm = record {
  takes_key = λ key h. refl;
  takes_nonce = λ nonce h. refl;
  tag =
      λ key nonce message. omega (arith, length-append (fit 16 nonce) message, length-fit 16 nonce);
  opens = λ key nonce message.
      rw
        (
          take-append-length (fit 16 nonce) message 16 (length-fit 16 nonce),
          drop-append-length (fit 16 nonce) message 16 (length-fit 16 nonce),
          bytes_eq_refl (fit 16 nonce),
        )
        refl;
}

pub aes-RefusesOtherNonces : RefusesOtherNonces aes_
aes-RefusesOtherNonces key nonce nonce' message h h' other =
    elim (Bool-cases (bytes_eq (fit 16 nonce) (fit 16 nonce'))) [
      | inl same ↦ absurd (
          other (
            fit-injective 16 12 nonce nonce' h h' (omega arith)
              ((bytes_eq_iff (fit 16 nonce) (fit 16 nonce')).0 same)))
      | inr e ↦ rw (take-append-length (fit 16 nonce) message 16 (length-fit 16 nonce), e) refl
    ]

-- The two ends of a session: `asking` has the database in which the peer is registered, `serving` one
-- with an entry for the peer's address.
abbrev pub conn_ : ConnInfo
conn_ = record {
  locked = false;
  session_key = replicate 16 6;
  base_iv = replicate 12 7;
  seq_number = replicate 12 255;
  sent = [];
}

abbrev pub handler_ : Handler
handler_ = record {
  peer_conn_info = 0;
  session_key = replicate 16 6;
  base_iv = replicate 12 7;
  peer_pub_key = key_;
}

abbrev pub serving_db : Db
serving_db = record (create_db [] []) {
  cells =
      λ _. record { destination = address_; next_hop = address_; capacity = pos 70; height = 0 };
  routing_entries_stack = 0 ∷ [];
}

abbrev pub node_ : Db → Node
node_ db = record { db = db; conn_infos = λ _. conn_; next_conn = 1 }

abbrev pub ends_ : Ends
ends_ = record { aes = aes_; ln_a = lnd_; ln_b = lnd_; at_a = handler_; at_b = handler_ }

abbrev pub link_ : Link
link_ = record { a = node_ before; b = node_ serving_db; to_a = []; to_b = [] }

pub conn-IsReady : IsReady handler_ conn_
conn-IsReady = record {
  same_key = refl;
  same_iv = refl;
  session_key = refl;
  base_iv = refl;
  seq_number = record { len = refl; each = ground arith };
  free = refl;
}

link-IsResting : IsResting ends_ link_
link-IsResting = record {
  empty_a = refl;
  empty_b = refl;
  ready_a = conn-IsReady;
  ready_b = conn-IsReady;
  session_key = refl;
  base_iv = refl;
  seq_number = refl;
}

served_response : process_table_request serving_db request ≡ ok response_
unfolding process_table_request slice put_be be create_db get_last_routing_entries peek_from_block
    serialize_destinations serialize_destination routing_entry_to_destination to_uint64 put_le
served_response = refl

asks-IsResting_example :
    (l' : Link) × Steps ends_ link_ l'
    × IsResting ends_ l'
    × (l'.a.db ≡ after)
    × (l'.b.db ≡ serving_db)
asks-IsResting_example =
    asks-IsResting ends_ link_ response_ after aes-IsGcm link-IsResting served_response
      (omega arith) processed

asks-asks-fatal_example :
    (l' : Link) × Steps ends_ link_ l'
    × (handle_round aes_ lnd_ handler_ l'.a l'.to_a ≡ fatal)
    × (handle_round aes_ lnd_ handler_ l'.b l'.to_b ≡ fatal)
asks-asks-fatal_example =
    asks-asks-fatal ends_ link_ aes-IsGcm aes-RefusesOtherNonces link-IsResting

-- Another goroutine that holds the mutex of connection 1 at every odd moment.
abbrev sometimes_held : ℕ → Node → Node
sometimes_held n node = set_conn 1 (record (node.conn_infos 1) { locked = n % 2 == 1 }) node

sometimes_held-IsReleased : IsReleased sometimes_held 1 1
unfolding set_conn
sometimes_held-IsReleased k node = ground arith

handle_peer_connection-ends_example : HasEnded (
    handle_peer_connection aes_ lnd_ sometimes_held 7
      (replicate 16 6)
      (replicate 12 7)
      (replicate 12 8)
      key_
      (node_ before)
      (0 ∷ 1 ∷ 5 ∷ []))
handle_peer_connection-ends_example =
    handle_peer_connection-ends aes_ lnd_ sometimes_held 1 (replicate 16 6) (replicate 12 7)
      (replicate 12 8) key_ (node_ before) (0 ∷ 1 ∷ 5 ∷ []) sometimes_held-IsReleased

-- The node once it has taken a response in.
abbrev informed_ : Node
informed_ =
    set_conn 0 (record (taken conn_) { locked = false })
      (record (set_conn 0 (taken conn_) (node_ before)) { db = after })

ended : handle_round aes_ lnd_ handler_ informed_ [] ≡ ok (returns informed_, [])
unfolding handle_round read_message read
ended = refl

taken_in :
    handle_rounds aes_ lnd_ handler_
      (λ n node. node)
      2
      (node_ before)
      (frame (sealed aes_ conn_ response_) ++ [])
    ≡ some (ok (returns informed_))
unfolding handle_rounds after_round
taken_in =
    let first =
      handle_round-response aes_ lnd_ handler_ (node_ before) response_ [] after aes-IsGcm
        conn-IsReady (omega arith) processed in
    rw (first, ended) refl

handle_rounds-IsValid_example : TurnIsValid (returns informed_)
handle_rounds-IsValid_example =
    handle_rounds-IsValid aes_ lnd_ handler_ (λ n node. node) 2 (node_ before)
      (frame (sealed aes_ conn_ response_) ++ []) (returns informed_) (λ n node v. v) before-IsValid
      taken_in
