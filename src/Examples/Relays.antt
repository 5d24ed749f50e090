-- ===== src/Examples/Relays.antt =====
-- Probes, nonces and mutexes of ldrlib/networking.go at concrete values.
use ld_routing.Base.{◌↔◌, ℕ, ◌≡◌, refl, some, [], ◌∷◌, ◌++◌, arith, replicate, List, suc, length}
use ld_routing.Base.Int.{pos}
use ld_routing.Base.Run.{ok}
use ld_routing.Base.Bytes.{Bytes, IsBytes, bytes_eq, slice, be, be_from}
use ld_routing.Peer.Sequence.{increment_seq_number, increment_from, get_nonce}
use ld_routing.Peer.Sequence.Nonce.{nonce_of, get_nonce-after}
use ld_routing.Peer.Cipher.{decrypt_aes}
use ld_routing.Peer.Connection.{Node, returns, set_conn, frame}
use ld_routing.Peer.Connection.Dispatch.{handle_message}
use ld_routing.Peer.Connection.Loop.{read, read_message, treat_message, finish_round, handle_round}
use ld_routing.Peer.Connection.Exchange.{sealed, taken}
use ld_routing.Peer.Connection.Mutex.{MutexAfter, handle_round-MutexAfter}
use ld_routing.Base.Dict.{find, assign}
use ld_routing.Wire.Bits.{byte_to_bit}
use ld_routing.Wire.Hex.{hex_encode, pub_key_array_to_string}
use ld_routing.Wire.Types.{AddressInfo, Route, IsRoute}
use ld_routing.Wire.Codec.{serialize_route}
use ld_routing.Tree.{walk, child, get_data, find_data, insert}
use ld_routing.Db.{Db, create_db}
use ld_routing.Db.Addresses.{
  info_at, get_address_node, get_peer_conn, get_dest_conn, add_address_to_db, add_dest_conn_to_db,
}
use ld_routing.Db.Lnd.{Lnd, get_local_channels}
use ld_routing.Db.Routing.{get_routing_entry}
use ld_routing.Message.{create_forward_route_message}
use ld_routing.Route.{add_hop_to_route, hop_capacity}
use ld_routing.Route.Hops.{IsExtension, IsHopAdded, add_hop_to_route-IsHopAdded}
use ld_routing.Peer.Connection.Relay.{Site, Carried, IsReader, IsHop, IsArrival, arrives, passes}
use ld_routing.Peer.Connection.Relay.Arrival.{create_forward_route_message-Carried}
use ld_routing.Examples.Links.{aes_, aes-IsGcm, fit, conn_, handler_, node_, conn-IsReady}
use ld_routing.Examples.Responses.{address_, info_, key_, lnd_, before}

get_nonce-after_example :
    (replicate {A = ℕ} 12 248 ≡ replicate 11 7 ++ (6 ∷ [])) ↔ (◌≡◌ {A = ℕ} 0 2)
unfolding get_nonce increment_seq_number increment_from
get_nonce-after_example =
    get_nonce-after (replicate 12 7) (replicate 12 255) (replicate 12 248)
      (replicate 11 7 ++ (6 ∷ [])) 0 2 refl (record { len = refl; each = ground arith })
      (omega arith) (omega arith) refl refl

-- A message of an unknown type.
abbrev odd : Bytes
odd = 0 ∷ 18 ∷ (fit 16 (nonce_of (replicate 12 7) (replicate 12 255)) ++ (9 ∷ 9 ∷ []))

abbrev stuck : Node
stuck = set_conn 0 (taken conn_) (node_ before)

handle_round-MutexAfter_example : MutexAfter aes_ handler_ (node_ before) (returns stuck)
unfolding handle_round read_message read be be_from treat_message decrypt_aes get_nonce bytes_eq
    handle_message slice finish_round set_conn
handle_round-MutexAfter_example =
    handle_round-MutexAfter aes_ lnd_ handler_ (node_ before) odd
      (fit 16 (nonce_of (replicate 12 7) (replicate 12 255)) ++ (9 ∷ 9 ∷ [])) [] [] (returns stuck)
      refl refl

-- A node that passes a route on to its destination, over connection 1.
abbrev pub rich : Lnd
rich = record lnd_ {
  list_channels = some (record { remote_pubkey = hex_encode key_; local_balance = pos 9000 } ∷ []);
}

abbrev pub known : AddressInfo
known = record info_ { routing_entry = some 0; peer_conn = some 1 }

abbrev pub passing_db : Db
passing_db = record (add_address_to_db (create_db [] []) known) {
  cells =
      λ _. record { destination = address_; next_hop = address_; capacity = pos 70; height = 0 };
}

abbrev pub token_ : Bytes
token_ = replicate 10 3

abbrev pub hop_ : Bytes
hop_ = 1 ∷ 2 ∷ 3 ∷ 4 ∷ []

abbrev pub route_ : Route
route_ = record { destination = address_; capacity = pos 10000; hops = hop_ ∷ []; token = token_ }

abbrev pub longer : Route
longer = record route_ { capacity = pos 9000; hops = hop_ ∷ address_ ∷ [] }

add_hop_to_route-rich : add_hop_to_route rich passing_db route_ ≡ ok (address_, longer)
unfolding add_hop_to_route get_routing_entry info_at walk child get_data create_db add_address_to_db
    insert byte_to_bit get_address_node find_data get_local_channels hop_capacity bytes_eq
    pub_key_array_to_string hex_encode assign
add_hop_to_route-rich = refl

add_hop_to_route-IsHopAdded_example : IsHopAdded rich passing_db route_ longer address_
add_hop_to_route-IsHopAdded_example =
    add_hop_to_route-IsHopAdded rich passing_db route_ longer address_ add_hop_to_route-rich

abbrev passing : Site
passing = record { ln = rich; handler = handler_; node = node_ passing_db; out = 1 }

abbrev pub arriving : Site
arriving = record {
  ln = lnd_;
  handler = handler_;
  node =
      node_ (add_dest_conn_to_db (record (create_db [] []) { local_address = address_ }) token_ 1);
  out = 1;
}

address-IsBytes : IsBytes 4 address_
address-IsBytes = record { len = refl; each = ground arith }

sample-IsRoute : IsRoute route_
sample-IsRoute = record {
  destination = address-IsBytes;
  capacity = omega arith;
  hops = (record { len = refl; each = ground arith }, tt);
  token = record { len = refl; each = ground arith };
}

pub longer-IsRoute : IsRoute longer
longer-IsRoute = record {
  destination = address-IsBytes;
  capacity = omega arith;
  hops = (record { len = refl; each = ground arith }, (address-IsBytes, tt));
  token = record { len = refl; each = ground arith };
}

passing-IsReader : IsReader passing conn_ route_
passing-IsReader = record {
  ready = conn-IsReady;
  session_key = refl;
  base_iv = refl;
  seq_number = refl;
  sized = sample-IsRoute;
  short = omega arith;
  other_out = λ e. absurd (omega (arith, e));
}

pub arriving-IsReader : IsReader arriving conn_ longer
arriving-IsReader = record {
  ready = conn-IsReady;
  session_key = refl;
  base_iv = refl;
  seq_number = refl;
  sized = longer-IsRoute;
  short = omega arith;
  other_out = λ e. absurd (omega (arith, e));
}

pub arriving-IsArrival : IsArrival arriving longer
unfolding bytes_eq create_db add_dest_conn_to_db get_dest_conn find assign
arriving-IsArrival = record { here = refl; waiting = refl }

pub found_conn : get_peer_conn passing_db address_ ≡ ok (some 1)
unfolding get_peer_conn info_at walk child get_data create_db add_address_to_db insert byte_to_bit
found_conn = refl

passing-IsHop : IsHop passing route_ longer
unfolding bytes_eq create_db add_address_to_db
passing-IsHop = record {
  elsewhere = refl;
  next_hop = (address_, add_hop_to_route-rich, found_conn);
  session_key = refl;
  base_iv = refl;
  seq_number = refl;
}

create_forward_route_message-Carried_example :
    Carried aes_
      (passing ∷ arriving ∷ [])
      (frame (sealed aes_ conn_ (create_forward_route_message route_)))
      (serialize_route longer)
    × (added : List Bytes) × IsExtension route_ longer added
    × (suc (length added) ≡ 2)
create_forward_route_message-Carried_example =
    create_forward_route_message-Carried aes_ conn_ route_ longer (passing ∷ arriving ∷ [])
      aes-IsGcm
      (passes passing passing-IsReader passing-IsHop
        (arrives arriving arriving-IsReader arriving-IsArrival))
