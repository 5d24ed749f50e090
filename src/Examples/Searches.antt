-- ===== src/Examples/Searches.antt =====
-- ldrlib/routing.go and the connections of ldrlib/networking.go that come in, at concrete values.
use ld_routing.Base.{◌≡◌, refl, true, false, some, none, [], ◌∷◌, arith, replicate}
use mathlib.Core.Option
use ld_routing.Base.Int.{pos}
use ld_routing.Base.Run.{ok, panic, fatal}
use ld_routing.Base.Bytes.{bytes_eq}
use ld_routing.Base.Dict.{find, assign}
use ld_routing.Wire.Bits.{byte_to_bit}
use ld_routing.Wire.Hex.{hex_encode, hex_decode, pub_key_array_to_string, pub_key_string_to_array}
use ld_routing.Wire.Types.{Route, IsRoute}
use ld_routing.Wire.Codec.{serialize_route}
use ld_routing.Tree.{walk, child, get_data, find_data, insert, is_registered, modify}
use ld_routing.Db.{create_db}
use ld_routing.Db.Addresses.{
  info_at, get_address_node, get_node_address, get_peer_conn, get_dest_conn, add_address_to_db,
  add_dest_conn_to_db, add_peer_conn_to_db, is_address_registered,
}
use ld_routing.Db.Lnd.{Lnd, get_local_channels, verify_message}
use ld_routing.Db.Routing.{get_routing_entry}
use ld_routing.Route.{create_route, add_hop_to_route, hop_capacity}
use ld_routing.Route.Search.{connect_to_destination, get_route_manual}
use ld_routing.Route.Search.Answer.{
  IsSender, IsAnswered, get_route_manual-IsAnswered, get_route_manual-panic,
}
use ld_routing.Peer.Rsa.{Rsa}
use ld_routing.Peer.Handshake.{Session}
use ld_routing.Peer.Connection.{Node, set_conn}
use ld_routing.Peer.Connection.Loop.{Handler, start_connection}
use ld_routing.Peer.Connection.Link.{IsResting}
use ld_routing.Peer.Connection.Relay.{IsReader, IsArrival, arrives}
use ld_routing.Peer.Listen.{KeyPair, accept_connection, start_session}
use ld_routing.Peer.Listen.Accepted.{
  accept_connection-silent, accept_connection-connect_to_destination, start_session-IsResting,
}
use ld_routing.Examples.Links.{aes_, aes-IsGcm, conn_, handler_, node_, conn-IsReady}
use ld_routing.Examples.Responses.{address_, key_, lnd_, before}
use ld_routing.Examples.Relays.{rich, passing_db, token_, arriving, found_conn}

-- The node that searches, and the same once it is connected with the destination.
abbrev searching : Node
searching = record (node_ passing_db) { next_conn = 9 }

abbrev connected : Node
connected =
    set_conn 9
      (record {
        locked = false;
        session_key = [];
        base_iv = [];
        seq_number = [];
        sent = 1 ∷ token_;
      })
      (record searching { db = add_dest_conn_to_db passing_db token_ 9; next_conn = 10 })

abbrev first_ : Route
first_ = record {
  destination = address_;
  capacity = pos 9000;
  hops = address_ ∷ [];
  token = token_;
}

first-IsRoute : IsRoute first_
first-IsRoute = record {
  destination = record { len = refl; each = ground arith };
  capacity = omega arith;
  hops = (record { len = refl; each = ground arith }, tt);
  token = record { len = refl; each = ground arith };
}

first-IsReader : IsReader arriving conn_ first_
first-IsReader = record {
  ready = conn-IsReady;
  session_key = refl;
  base_iv = refl;
  seq_number = refl;
  sized = first-IsRoute;
  short = omega arith;
  other_out = λ e. absurd (omega (arith, e));
}

first-IsArrival : IsArrival arriving first_
unfolding bytes_eq create_db add_dest_conn_to_db get_dest_conn find assign
first-IsArrival = record { here = refl; waiting = refl }

registered : is_address_registered passing_db address_ ≡ ok true
unfolding is_address_registered is_registered child create_db add_address_to_db insert byte_to_bit
registered = refl

connected-IsSender : IsSender connected address_ 1
unfolding set_conn get_peer_conn info_at walk child get_data create_db add_address_to_db insert
    byte_to_bit add_dest_conn_to_db
connected-IsSender = record { found = refl; session_key = refl; base_iv = refl; seq_number = refl }

searching-IsSender : IsSender searching address_ 1
searching-IsSender = record {
  found = found_conn;
  session_key = refl;
  base_iv = refl;
  seq_number = refl;
}

-- The hop from either node: the connection with the destination plays no part in it.
first_hop :
    (add_hop_to_route rich passing_db (create_route token_ address_) ≡ ok (address_, first_))
    × (add_hop_to_route rich connected.db (create_route token_ address_) ≡ ok (address_, first_))
unfolding add_hop_to_route get_routing_entry info_at walk child get_data create_db add_address_to_db
    insert byte_to_bit get_address_node find_data get_local_channels hop_capacity bytes_eq
    pub_key_array_to_string hex_encode assign create_route set_conn add_dest_conn_to_db
first_hop = (refl, refl)

get_route_manual-IsAnswered_example :
    (after : Node) × (get_route_manual aes_
        (λ ip. true)
        rich
        token_
        address_
        (8 ∷ [])
        (serialize_route first_)
        searching
      ≡ ok (record first_ { hops = [] }, after))
    × IsAnswered aes_ connected 1 (arriving ∷ []) token_ first_ after
unfolding connect_to_destination set_conn get_dest_conn add_dest_conn_to_db find assign bytes_eq
    create_db add_address_to_db
get_route_manual-IsAnswered_example =
    get_route_manual-IsAnswered aes_ (λ ip. true) rich token_ address_ (8 ∷ []) address_ searching
      connected 1 9 first_ first_ (arriving ∷ []) aes-IsGcm registered refl refl first_hop.1
      connected-IsSender first-IsRoute (arrives arriving first-IsReader first-IsArrival)

get_route_manual-panic_example :
    get_route_manual aes_ (λ ip. false) rich token_ address_ (8 ∷ []) [] searching ≡ panic
unfolding connect_to_destination get_dest_conn find create_db add_address_to_db
get_route_manual-panic_example =
    get_route_manual-panic aes_ (λ ip. false) rich token_ address_ (8 ∷ []) address_ [] searching 1
      first_ aes-IsGcm registered refl refl first_hop.0 searching-IsSender

-- A lightning node that refuses every signature.
abbrev refusing : Lnd
refusing = record lnd_ { verify_message = λ message signature. some (false, hex_encode key_) }

abbrev rsa_ : Rsa
rsa_ = record {
  pem_decode = λ pem. some (record { block_type = []; headers = []; contents = pem });
  is_encrypted_pem_block = λ block. false;
  decrypt_pem_block = λ block. none;
  parse_pkix_public_key = λ b. some (some b);
  parse_pkcs1_private_key = λ b. some b;
  encrypt_oaep = λ key message. some message;
  decrypt_oaep = λ key message. some message;
}

abbrev keys_ : KeyPair
keys_ = record { priv_key = 1 ∷ []; pub_key = 2 ∷ [] }

accept_connection-silent_example : accept_connection rsa_ keys_ refusing [] searching ≡ fatal
unfolding verify_message pub_key_string_to_array hex_decode hex_encode Option.bind
accept_connection-silent_example = accept_connection-silent rsa_ keys_ refusing searching key_ refl

accept_connection-connect_to_destination_example :
    (connected accepted : Node) × (connect_to_destination (λ ip. true) (8 ∷ []) token_ searching
      ≡ some connected)
    × (accept_connection rsa_ keys_ lnd_ (connected.conn_infos 9).sent (node_ before)
        ≡ ok (none, accepted))
    × (get_dest_conn connected.db token_ ≡ some 9)
    × (get_dest_conn accepted.db token_ ≡ some 1)
accept_connection-connect_to_destination_example =
    accept_connection-connect_to_destination rsa_ keys_ lnd_ (λ ip. true) (8 ∷ []) token_ searching
      (node_ before) refl refl

-- A session with the peer, and the node once its handler has started.
abbrev session_ : Session
session_ = record {
  session_key = replicate 16 6;
  base_iv = replicate 12 7;
  start_seq = replicate 12 8;
  peer_key = key_;
}

abbrev started_node : Node
started_node =
    set_conn 1
      (record {
        locked = false;
        session_key = replicate 16 6;
        base_iv = replicate 12 7;
        seq_number = replicate 12 8;
        sent = [];
      })
      (record {
        db = record before {
          address_tree_head =
              modify (byte_to_bit address_) (λ i. record i { peer_conn = some 1 })
                before.address_tree_head;
        };
        conn_infos = λ _. conn_;
        next_conn = 2;
      })

abbrev started_handler : Handler
started_handler = record handler_ { peer_conn_info = 1 }

session_started : start_session session_ (node_ before) ≡ ok (started_handler, started_node)
unfolding start_session start_connection get_node_address find assign bytes_eq create_db
    add_address_to_db insert byte_to_bit info_at walk child get_data add_peer_conn_to_db modify
    set_conn
session_started = refl

start_session-IsResting_example :
    IsResting
      (record {
        aes = aes_;
        ln_a = lnd_;
        ln_b = lnd_;
        at_a = started_handler;
        at_b = started_handler;
      })
      (record { a = started_node; b = started_node; to_a = []; to_b = [] })
start_session-IsResting_example =
    start_session-IsResting aes_ lnd_ lnd_ session_ session_ (node_ before) (node_ before)
      started_node started_node started_handler started_handler
      (record { session_key = refl; base_iv = refl; start_seq = refl })
      (record { len = refl; each = ground arith }) refl session_started session_started
