-- ===== src/Db/Registration.antt =====
-- ldrlib/db.go: verifyAddressRegistration, and the updates of the address database from the chain.
pub mod Neighbours
pub mod Accepted
use ld_routing.Base.{
  ℕ, ◌+◌, ◌%◌, ◌^◌, Bool, false, not, ◌&&◌, ◌||◌, Option, none, some, ltb, if◌then◌else◌,
}
use ld_routing.Base.Run.{Run, ok, ◌>>=◌, fatal_on_error, or_fatal, for_each}
use ld_routing.Base.Bytes.{Bytes, bytes_eq}
use ld_routing.Wire.Types.{AddressInfo}
use ld_routing.Bitcoin.{AddressRegistration, Bitcoind, get_new_address_registrations}
use ld_routing.Db.{Db}
use ld_routing.Db.Addresses.{
  get_node_address, is_address_registered, suggest_address, add_address_to_db,
}
use ld_routing.Db.Lnd.{Lnd, verify_message, get_node_neighbours_pub_keys}
use ld_routing.Db.Disk.{update_block_height, save_address_to_file}

-- registeredNeighbourCounter, and suggestedAddressFlag.
pub record Tally : Type 0 where
  pub registered_neighbours : ℕ
  pub suggested : Bool

-- One neighbour in the loop.
unfoldable pub ask_neighbour : Db → Bytes → Tally → Bytes → Run Tally
ask_neighbour db new_address tally neighbour = do
  (neighbour_address, is_registered) ← get_node_address db neighbour
  if is_registered
      then (do
        suggested_address ← fatal_on_error (suggest_address db neighbour_address)
        ok (record {
          registered_neighbours = tally.registered_neighbours + 1;
          suggested = bytes_eq suggested_address new_address || tally.suggested;
        }))
      else ok tally

abbrev pub no_tally : Tally
no_tally = record { registered_neighbours = 0; suggested = false }

-- Whether the tally lets the registration pass.
abbrev pub passes : Tally → Bool
passes tally = not (ltb 0 tally.registered_neighbours && not tally.suggested)

-- The address info of a registration that passed.
unfoldable pub validated : AddressRegistration → Bytes → AddressInfo
validated registration node_pub_key = record {
  address = registration.address;
  node_pub_key = node_pub_key;
  registration_height = registration.block_height;
  registration_tx_id = registration.tx_id;
  version = registration.version;
  routing_entry = none;
  peer_conn = none;
}

unfoldable pub verify_address_registration :
    Db → AddressRegistration → Lnd → Run (Option AddressInfo)
verify_address_registration db registration ln_client = do
  (valid_sig, node_pub_key) ← verify_message ln_client registration.address registration.sig
  if not valid_sig then ok none else do
    registered ← is_address_registered db registration.address
    if registered then ok none else do
      neighbours ← get_node_neighbours_pub_keys ln_client node_pub_key
      tally ← for_each (ask_neighbour db registration.address) no_tally neighbours
      ok (if passes tally then some (validated registration node_pub_key) else none)

-- A registration that passes is added and saved.
unfoldable pub keep_if_valid : Db → Option AddressInfo → Run Db
keep_if_valid db none = ok db
keep_if_valid db (some info) = save_address_to_file (add_address_to_db db info) info

unfoldable pub apply_registration : Lnd → Db → AddressRegistration → Run Db
unfolding keep_if_valid
apply_registration ln_client db registration = do
  info ← verify_address_registration db registration ln_client
  keep_if_valid db info

-- UpdateAddressDB, and one pass of the loop of SynchronizeAddressDB: there the last scanned block is
-- a variable of the loop.
unfoldable pub scan_from : ℕ → Db → Bitcoind → Lnd → Run Db
scan_from last_scanned_block db bitcoin_client ln_client = do
  block_count ← or_fatal bitcoin_client.get_block_count
  updated ←
      (if ltb last_scanned_block block_count
        then (do
          registrations ←
              get_new_address_registrations bitcoin_client ((last_scanned_block + 1) % 2 ^ 64)
                block_count
          for_each (apply_registration ln_client) db registrations)
        else ok db)
  ok (update_block_height updated block_count)

unfoldable pub update_address_db : Db → Bitcoind → Lnd → Run Db
update_address_db db bitcoin_client ln_client = scan_from db.height db bitcoin_client ln_client
