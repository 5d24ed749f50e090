-- ===== src/Examples/Scans.antt =====
-- The registrations of ldrlib/db.go at concrete values.
use mathlib.Core.Option
use ld_routing.Base.{◌++◌, refl, true, none, some, [], ◌∷◌, replicate}
use ld_routing.Base.Run.{for_each}
use ld_routing.Base.Bytes.{Bytes, put_le}
use ld_routing.Wire.Bits.{byte_to_bit}
use ld_routing.Wire.Codec.{serialize_address_info}
use ld_routing.Wire.Hex.{hex_encode, hex_decode, pub_key_string_to_array}
use ld_routing.Tree.{is_registered, child}
use ld_routing.Suggest
use ld_routing.Bitcoin.{AddressRegistration}
use ld_routing.Db.{Db, create_db}
use ld_routing.Db.Addresses.{is_address_registered, add_address_to_db}
use ld_routing.Db.Disk.{save_address_to_file}
use ld_routing.Db.Lnd.{Lnd, verify_message, get_node_neighbours_pub_keys}
use ld_routing.Db.Registration.{
  validated, verify_address_registration, keep_if_valid, apply_registration,
}
use ld_routing.Db.Valid.{IsValid}
use ld_routing.Db.Valid.Created.{create_db-IsValid}
use ld_routing.Db.Registration.Accepted.{apply_registration-IsValid}

abbrev key_ : Bytes
key_ = replicate 33 2

-- A lightning node that takes every signature for the key, and knows no channels.
abbrev lnd_ : Lnd
lnd_ = record {
  identity_pubkey = none;
  list_channels = some [];
  get_node_info = λ _. some [];
  verify_message = λ _ _. some (true, hex_encode key_);
  zbase32_encode = λ s. s;
  zbase32_decode = λ s. some s;
  sign_message = λ m. none;
  node_addresses = λ _. none;
}

abbrev registration_ : AddressRegistration
registration_ = record {
  address = 10 ∷ 0 ∷ 255 ∷ 1 ∷ [];
  block_height = 600000;
  tx_id = replicate 32 7;
  sig = replicate 65 200;
  version = 0;
}

abbrev new_db : Db
new_db = create_db [] []

-- A node that has one neighbour, whose address is registered, and the address that it suggests.
abbrev neighbourly : Lnd
neighbourly = record lnd_ {
  get_node_info = λ _. some (hex_encode key_ ∷ []);
  verify_message = λ _ _. some (true, hex_encode (replicate 33 3));
}

abbrev following : AddressRegistration
following = record registration_ { address = 10 ∷ 0 ∷ 255 ∷ 0 ∷ [] }

-- The database after the registration.
abbrev saved : Db
saved = record (add_address_to_db new_db (validated registration_ key_)) {
  address_file =
      registration_.address ++ (key_ ++ (put_le 8 600000 ++ (registration_.tx_id ++ put_le 4 0)));
}

apply_registration-IsValid_example : IsValid saved
unfolding validated serialize_address_info save_address_to_file keep_if_valid apply_registration
    verify_address_registration create_db verify_message get_node_neighbours_pub_keys
    pub_key_string_to_array hex_decode hex_encode Option.bind is_address_registered is_registered
    child byte_to_bit for_each add_address_to_db put_le
apply_registration-IsValid_example =
    apply_registration-IsValid lnd_ new_db (registration_ ∷ []) saved (create_db-IsValid [] [])
      (refl, tt) refl
