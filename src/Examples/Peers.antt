-- ===== src/Examples/Peers.antt =====
-- The messages, the probes and the handshake of ldrlib at concrete values.
use ld_routing.Base.{
  ◌≡◌, refl, ap, true, false, ◌==◌, if◌then◌else◌, Option, none, some, [], ◌∷◌, ◌++◌, arith,
  replicate, drop, length, drop-append-length,
}
use mathlib.Core.Option
use ld_routing.Base.Int.{pos}
use ld_routing.Base.Run.{ok, panic, fatal, ◌>>=◌, for_each}
use ld_routing.Base.Bytes.{Bytes, IsBytes, bytes_eq, slice}
use ld_routing.Base.Dict.{find, assign}
use ld_routing.Wire.Types.{Route, IsRoute}
use ld_routing.Wire.Codec.{routing_entry_to_destination}
use ld_routing.Wire.Hex.{hex_encode, hex_decode, pub_key_string_to_array}
use ld_routing.Stack.Laws.{recent}
use ld_routing.Db.{Db, create_db}
use ld_routing.Db.Addresses.{is_node_registered, get_dest_conn, add_dest_conn_to_db}
use ld_routing.Db.Lnd.{Lnd, verify_message, get_local_node_neighbours_pub_keys}
use ld_routing.Db.Routing.{add_new_destination_to_db}
use ld_routing.Message.{create_table_request, process_table_request, process_table_response}
use ld_routing.Message.Exchange.{destinations, table_exchange}
use ld_routing.Route.Probe.{come_back, receive_route_from_destination-send_route_to_sender}
use ld_routing.Peer.Handshake.Checked.{IsChecked, check_peer-IsChecked}
use ld_routing.Db.Addresses.{add_address_to_db}
use ld_routing.Examples.Responses.{before, before-IsValid}
use ld_routing.Peer.Rsa.{
  Rsa, PemBlock, IsKeyPair, encrypt_rsa, bytes_to_public_rsa_key, block_bytes,
}
use ld_routing.Peer.Handshake.{
  Session, check_peer, offer_session, accept_session, confirm_session, shares_channel,
}
use ld_routing.Peer.Handshake.Exchange.{
  IsSession, accept_session-offer_session, confirm_session-accept_session,
}

abbrev address_ : Bytes
address_ = 10 ∷ 0 ∷ 255 ∷ 1 ∷ []

address-IsBytes : IsBytes 4 address_
address-IsBytes = record { len = refl; each = ground arith }

abbrev token_ : Bytes
token_ = replicate 10 3

abbrev route_ : Route
route_ = record {
  destination = address_;
  capacity = pos 1000;
  hops = address_ ∷ [];
  token = token_;
}

sample-IsRoute : IsRoute route_
sample-IsRoute = record {
  destination = address-IsBytes;
  capacity = omega arith;
  hops = (address-IsBytes, tt);
  token = record { len = refl; each = ground arith };
}

-- A database with a connection for the token.
abbrev waiting : Db
waiting = add_dest_conn_to_db (create_db [] []) token_ 5

receive_route_from_destination-send_route_to_sender_example :
    come_back waiting waiting route_ ≡ ok (record route_ { hops = [] }, none, none)
unfolding get_dest_conn add_dest_conn_to_db create_db find assign bytes_eq
receive_route_from_destination-send_route_to_sender_example =
    receive_route_from_destination-send_route_to_sender waiting waiting route_ 5 5 sample-IsRoute
      refl refl

-- A lightning node without channels that takes every signature for the key of 33 bytes 2.
abbrev peer_key_ : Bytes
peer_key_ = replicate 33 2

abbrev lnd_ : Lnd
lnd_ = record {
  identity_pubkey = some (hex_encode peer_key_);
  list_channels =
      some (record { remote_pubkey = hex_encode peer_key_; local_balance = pos 9000 } ∷ []);
  get_node_info = λ _. none;
  verify_message = λ _ _. some (true, hex_encode peer_key_);
  zbase32_encode = λ s. s;
  zbase32_decode = λ s. some s;
  sign_message = λ m. none;
  node_addresses = λ _. none;
}

-- A database whose stack has one entry, of block 600000.
abbrev serving : Db
serving = record (create_db [] []) {
  cells = λ _. record {
    destination = address_;
    next_hop = address_;
    capacity = pos 70;
    height = 600000;
  };
  routing_entries_stack = 0 ∷ [];
}

table_exchange_example :
    (create_table_request 599999 >>= process_table_request serving >>= λ response.
    process_table_response response waiting peer_key_ lnd_)
    ≡ for_each
        (λ db dest. add_new_destination_to_db db dest peer_key_ lnd_)
        waiting
        (destinations serving.cells (recent serving.cells 599999 serving.routing_entries_stack))
unfolding recent routing_entry_to_destination
table_exchange_example =
    table_exchange serving waiting 599999 peer_key_ lnd_ (omega arith) (tt, tt)
      (record { address = address-IsBytes; capacity = omega arith }, tt) (omega arith)

-- What begins with a 9 is in PEM.
abbrev block_ : Bytes → Option PemBlock
block_ [] = none
block_ (b ∷ key) =
    if b == 9 then some (record { block_type = []; headers = []; contents = key }) else none

-- A cipher that puts the key in front, and takes as many bytes off.
abbrev rsa_ : Rsa
rsa_ = record {
  pem_decode = block_;
  is_encrypted_pem_block = λ block. false;
  decrypt_pem_block = λ block. none;
  parse_pkix_public_key = λ b. some (some b);
  parse_pkcs1_private_key = λ b. some b;
  encrypt_oaep = λ key message. some (key ++ message);
  decrypt_oaep = λ key message. some (drop (length key) message);
}

abbrev offer_key : Bytes
offer_key = 9 ∷ 1 ∷ 2 ∷ []

abbrev accept_key : Bytes
accept_key = 9 ∷ 3 ∷ 4 ∷ 5 ∷ []

pair : (key : Bytes) → IsKeyPair rsa_ (9 ∷ key) (9 ∷ key)
pair key = record {
  pub_block = record { block_type = []; headers = []; contents = key };
  priv_block = record { block_type = []; headers = []; contents = key };
  public = key;
  private = key;
  pub_decodes = refl;
  priv_decodes = refl;
  pub_plain = refl;
  priv_plain = refl;
  pub_parses = refl;
  priv_parses = refl;
  opens = λ message short.
      (key ++ message, refl, ap some (drop-append-length key message (length key) refl));
}

abbrev session_ : Session
session_ = record {
  session_key = replicate 16 6;
  base_iv = replicate 12 7;
  start_seq = replicate 12 8;
  peer_key = peer_key_;
}

sample-IsSession : IsSession session_
sample-IsSession = record { session_key = refl; base_iv = refl; start_seq = refl }

accept_session-offer_session_example :
    (offer_session rsa_ accept_key session_ >>= λ offered.
    accept_session rsa_ accept_key offer_key peer_key_ offered)
    ≡ (encrypt_rsa rsa_ offer_key session_.session_key >>= λ acknowledgement.
        ok (record session_ { peer_key = peer_key_ }, acknowledgement))
accept_session-offer_session_example =
    accept_session-offer_session rsa_ accept_key accept_key offer_key peer_key_ session_
      (pair (3 ∷ 4 ∷ 5 ∷ [])) sample-IsSession

-- A key that is not in PEM ends the accepting side by a panic.
panics_on_bad_key :
    (offer_session rsa_ accept_key session_ >>= λ offered.
    accept_session rsa_ accept_key (7 ∷ []) peer_key_ offered)
    ≡ panic
unfolding encrypt_rsa bytes_to_public_rsa_key block_bytes
panics_on_bad_key =
    accept_session-offer_session rsa_ accept_key accept_key (7 ∷ []) peer_key_ session_
      (pair (3 ∷ 4 ∷ 5 ∷ [])) sample-IsSession

confirm_session-accept_session_example :
    (offer_session rsa_ accept_key session_ >>= λ offered.
    accept_session rsa_ accept_key offer_key peer_key_ offered >>= λ accepted.
    confirm_session rsa_ offer_key session_ accepted.1)
    ≡ fatal
confirm_session-accept_session_example =
    confirm_session-accept_session rsa_ offer_key offer_key accept_key accept_key peer_key_ session_
      (pair (1 ∷ 2 ∷ [])) (pair (3 ∷ 4 ∷ 5 ∷ [])) sample-IsSession

abbrev message_ : Bytes
message_ = replicate 524 1

check_peer-IsChecked_example : IsChecked before lnd_ message_ (replicate 459 1) peer_key_
unfolding check_peer slice bytes_eq shares_channel is_node_registered find verify_message
    get_local_node_neighbours_pub_keys pub_key_string_to_array hex_decode hex_encode create_db
    Option.bind add_address_to_db assign
check_peer-IsChecked_example =
    check_peer-IsChecked before lnd_ message_ (replicate 459 1) peer_key_ before-IsValid refl
