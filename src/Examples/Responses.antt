-- ===== src/Examples/Responses.antt =====
-- A table response of a peer at concrete bytes.
use ld_routing.Base.Run.{ok}
use ld_routing.Base.{◌≡◌, refl, none, some, [], ◌∷◌, replicate}
use ld_routing.Base.Int.{pos}
use ld_routing.Base.Bytes.{Bytes, bytes_eq, slice, be, le}
use ld_routing.Base.Dict.{find, assign}
use ld_routing.Base.Int.{to_int64}
use ld_routing.Wire.Bits.{byte_to_bit}
use ld_routing.Wire.Codec.{deserialize_destination}
use ld_routing.Wire.Types.{AddressInfo}
use ld_routing.Tree.{is_registered, child, walk, get_data, insert}
use mathlib.Core.Option
use ld_routing.Base.Run.{for_each}
use ld_routing.Wire.Hex.{hex_encode, hex_decode, pub_key_string_to_array, pub_key_array_to_string}
use ld_routing.Db.Routing.{synchronize_routing_pass, synchronize_channel, lower_capacities}
use ld_routing.Db.Valid.Pass.{synchronize_routing_pass-IsValid}
use ld_routing.Stack.{put, peek_from_block}
use ld_routing.Db.{Db, create_db, allocate, get_local_address, get_block_height}
use ld_routing.Db.Addresses.{info_at, get_node_address, is_address_registered, add_address_to_db}
use ld_routing.Db.Lnd.{Lnd, get_local_channels}
use ld_routing.Db.Routing.{
  get_routing_entry, add_routing_entry_to_db, add_new_entry, add_if_better, limit_capacity,
  add_new_destination_to_db,
}
use ld_routing.Db.Valid.{IsValid}
use ld_routing.Db.Valid.Address.{add_address_to_db-Registered}
use ld_routing.Db.Valid.Created.{create_db-IsValid}
use ld_routing.Db.Valid.Update.{replaced}
use ld_routing.Message.{process_table_response, add_destinations}
use ld_routing.Message.Untrusted.{process_table_response-IsValid}

abbrev pub address_ : Bytes
address_ = 10 ∷ 0 ∷ 255 ∷ 1 ∷ []

abbrev pub key_ : Bytes
key_ = replicate 33 2

abbrev pub info_ : AddressInfo
info_ = record {
  address = address_;
  node_pub_key = key_;
  registration_height = 600000;
  registration_tx_id = replicate 32 7;
  version = 0;
  routing_entry = none;
  peer_conn = none;
}

abbrev pub lnd_ : Lnd
lnd_ = record {
  identity_pubkey = none;
  list_channels = some [];
  get_node_info = λ _. none;
  verify_message = λ _ _. none;
  zbase32_encode = λ s. s;
  zbase32_decode = λ s. some s;
  sign_message = λ m. none;
  node_addresses = λ _. none;
}

-- A database in which the peer is registered.
abbrev pub before : Db
before = add_address_to_db (create_db [] []) info_

pub before-IsValid : IsValid before
unfolding is_address_registered create_db is_registered child byte_to_bit
before-IsValid =
    (add_address_to_db-Registered (create_db [] []) info_ (create_db-IsValid [] []) refl refl
      refl).valid

-- One destination: the peer itself, with a capacity of 70.
abbrev pub response_ : Bytes
response_ = 0 ∷ 1 ∷ 0 ∷ 1 ∷ 10 ∷ 0 ∷ 255 ∷ 1 ∷ 70 ∷ replicate 7 0

abbrev pub after : Db
after =
    replaced
      (allocate before
        (record { destination = address_; next_hop = address_; capacity = pos 70; height = 0 })).1
      0 []

pub processed : process_table_response response_ before key_ lnd_ ≡ ok after
unfolding process_table_response add_destinations slice be le to_int64 deserialize_destination
    add_new_destination_to_db bytes_eq get_local_address create_db get_node_address find assign
    add_address_to_db insert byte_to_bit info_at walk child get_data get_local_channels
    limit_capacity get_routing_entry get_block_height add_if_better add_new_entry
    add_routing_entry_to_db allocate put
processed = refl

process_table_response-IsValid_example : IsValid after
process_table_response-IsValid_example =
    process_table_response-IsValid response_ before key_ lnd_ after before-IsValid processed

-- A pass with one local channel, to the peer: an entry for the peer itself is added.
abbrev channel_ : Lnd
channel_ = record lnd_ {
  list_channels = some (record { remote_pubkey = hex_encode key_; local_balance = pos 9000 } ∷ []);
}

abbrev passed : Db
passed =
    replaced
      (allocate before
        (record { destination = address_; next_hop = address_; capacity = pos 9000; height = 0 })).1
      0 []

synchronize_routing_pass-IsValid_example : IsValid passed
unfolding synchronize_routing_pass for_each synchronize_channel lower_capacities peek_from_block
    pub_key_string_to_array pub_key_array_to_string hex_encode hex_decode Option.bind
    add_new_destination_to_db bytes_eq get_local_address create_db get_node_address find assign
    add_address_to_db insert byte_to_bit info_at walk child get_data get_local_channels
    limit_capacity get_routing_entry get_block_height add_if_better add_new_entry
    add_routing_entry_to_db allocate put
synchronize_routing_pass-IsValid_example =
    synchronize_routing_pass-IsValid before passed channel_ before-IsValid refl
