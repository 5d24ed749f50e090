-- ===== src/Db/Lnd.antt =====
-- ldrlib/ln.go: what the program asks of the lightning node. The node and the zbase32 package are
-- not in the repository: `Lnd` holds their answers while one operation runs, `none` where the call
-- returns an error.
pub mod Answers
use ld_routing.Base.{ℕ, suc, Bool, Option, none, some, List, [], ◌∷◌, ◌==◌, if◌then◌else◌, take}
use mathlib.Core.Option
use ld_routing.Base.Int.{ℤ}
use ld_routing.Base.Run.{Run, ok, ◌>>=◌, or_fatal, or_panic}
use ld_routing.Base.Bytes.{Bytes}
use ld_routing.Wire.Hex.{pub_key_array_to_string, pub_key_string_to_array}

-- The fields of a local channel that the code reads.
pub record Channel : Type 0 where
  pub remote_pubkey : Bytes
  pub local_balance : ℤ

pub record Lnd : Type 0 where
  pub identity_pubkey : Option Bytes
  pub list_channels : Option (List Channel)
  -- the first end of each channel of a node
  pub get_node_info : Bytes → Option (List Bytes)
  pub verify_message : Bytes → Bytes → Option (Bool × Bytes)
  pub zbase32_encode : Bytes → Bytes
  pub zbase32_decode : Bytes → Option Bytes
  -- the signature in zbase32
  pub sign_message : Bytes → Option Bytes
  -- the network addresses of a node
  pub node_addresses : Bytes → Option (List Bytes)

unfoldable pub get_local_node_pub_key : Lnd → Run Bytes
get_local_node_pub_key client = do
  key ← or_fatal client.identity_pubkey
  pub_key_string_to_array key

unfoldable pub get_local_channels : Lnd → Run (List Channel)
get_local_channels client = or_fatal client.list_channels

-- The keys of a list of channel ends.
keys_of : List Bytes → Run (List Bytes)
keys_of [] = ok []
keys_of (end ∷ ends) = do key ← pub_key_string_to_array end; keys ← keys_of ends; ok (key ∷ keys)

remote_ends : List Channel → List Bytes
remote_ends [] = []
remote_ends (channel ∷ channels) = channel.remote_pubkey ∷ remote_ends channels

unfoldable pub get_local_node_neighbours_pub_keys : Lnd → Run (List Bytes)
unfolding keys_of remote_ends
get_local_node_neighbours_pub_keys client = do
  channels ← or_fatal client.list_channels
  keys_of (remote_ends channels)

-- The first end of every channel is taken for the neighbour, also where it is the node itself.
unfoldable pub get_node_neighbours_pub_keys : Lnd → Bytes → Run (List Bytes)
unfolding keys_of
get_node_neighbours_pub_keys client node_pub_key = do
  ends ← or_fatal (client.get_node_info (pub_key_array_to_string node_pub_key))
  keys_of ends

unfoldable pub verify_message : Lnd → Bytes → Bytes → Run (Bool × Bytes)
verify_message client message signature = do
  (valid, pubkey) ← or_fatal (client.verify_message message (client.zbase32_encode signature))
  key ← pub_key_string_to_array pubkey
  ok (valid, key)

unfoldable pub sign_message : Lnd → Bytes → Run Bytes
sign_message client message = do
  signature ← or_fatal (client.sign_message message)
  or_fatal (client.zbase32_decode signature)

-- strings.Index with ":", none for -1
unfoldable pub index_of_colon : Bytes → Option ℕ
index_of_colon [] = none
index_of_colon (c ∷ cs) =
    let rest = index_of_colon cs in if c == b':' then some 0 else Option.map suc rest

-- The loop of GetNodeIPs; an address without a colon is cut at -1, which panics.
unfoldable pub hosts_of : List Bytes → Run (List Bytes)
hosts_of [] = ok []
hosts_of (address ∷ addresses) = do
  i ← or_panic (index_of_colon address)
  addrs ← hosts_of addresses
  ok (take i address ∷ addrs)

unfoldable pub get_node_ips : Lnd → Bytes → Run (List Bytes)
unfolding hosts_of
get_node_ips client node_pub_key = do
  addresses ← or_fatal (client.node_addresses (pub_key_array_to_string node_pub_key))
  hosts_of addresses
