-- ===== src/Db/Routing.antt =====
-- ldrlib/db.go: routing entries, in the tree and on the stack.
pub mod Capacities
use ld_routing.Base.{ℕ, ◌&&◌, Option, none, some, List, [], ◌∷◌, ◌==◌, if◌then◌else◌}
use ld_routing.Base.Int.{ℤ, ltb_ℤ}
use ld_routing.Base.Run.{Run, ok, ◌>>=◌, for_each}
use ld_routing.Base.Bytes.{Bytes, bytes_eq}
use ld_routing.Wire.Bits.{byte_to_bit}
use ld_routing.Wire.Types.{Ref, RoutingEntry, Destination}
use ld_routing.Wire.Hex.{pub_key_array_to_string, pub_key_string_to_array}
use ld_routing.Tree.{modify}
use ld_routing.Stack
use ld_routing.Stack.{RoutingStack}
use ld_routing.Db.{Db, genesis_block, get_block_height, get_local_address, allocate}
use ld_routing.Db.Addresses.{info_at, get_node_address}
use ld_routing.Db.Lnd.{Lnd, Channel, get_local_channels}

unfoldable pub get_routing_entry : Db → Bytes → Run (Option Ref)
get_routing_entry db destination = do
  info ← info_at db (byte_to_bit destination)
  ok info.routing_entry

-- The old entry of the destination leaves the stack.
unfoldable pub drop_current : Option Ref → RoutingStack → Run RoutingStack
drop_current none s = ok s
drop_current (some current_entry) s = Stack.remove current_entry s

unfoldable pub add_routing_entry_to_db : Db → Ref → Run Db
unfolding drop_current
add_routing_entry_to_db db entry = do
  let bits = byte_to_bit (db.cells entry).destination
  info ← info_at db bits
  rest ← drop_current info.routing_entry db.routing_entries_stack
  ok (record db {
    address_tree_head =
        modify bits (λ i. record i { routing_entry = some entry }) db.address_tree_head;
    routing_entries_stack = Stack.put entry rest;
  })

-- A new entry that is added at once.
unfoldable pub add_new_entry : Db → RoutingEntry → Run Db
add_new_entry db entry = let (r, db') = allocate db entry in add_routing_entry_to_db db' r

unfoldable pub get_last_routing_entries : Db → ℕ → List Ref
get_last_routing_entries db from_block =
    Stack.peek_from_block db.cells from_block db.routing_entries_stack

-- The loop of addNewDestinationToDB over the local channels.
unfoldable pub limit_capacity : Bytes → List Channel → ℤ → ℤ
limit_capacity neighbour [] capacity = capacity
limit_capacity neighbour (channel ∷ channels) capacity = limit_capacity neighbour channels (
    if bytes_eq channel.remote_pubkey neighbour && ltb_ℤ channel.local_balance capacity
    then channel.local_balance
    else capacity)

-- The end of addNewDestinationToDB: the new entry replaces one that has no more capacity.
unfoldable pub add_if_better : Db → RoutingEntry → Option Ref → Run Db
add_if_better db new_entry none = add_new_entry db new_entry
add_if_better db new_entry (some entry) =
    if ltb_ℤ new_entry.capacity (db.cells entry).capacity then ok db else add_new_entry db new_entry

unfoldable pub add_new_destination_to_db : Db → Destination → Bytes → Lnd → Run Db
unfolding limit_capacity add_if_better
add_new_destination_to_db db destination neighbour_pub_key ln_client =
    if bytes_eq destination.address (get_local_address db) then ok db else do
      (peer_address, _) ← get_node_address db neighbour_pub_key
      channels ← get_local_channels ln_client
      let capacity =
          limit_capacity (pub_key_array_to_string neighbour_pub_key) channels destination.capacity
      entry ← get_routing_entry db destination.address
      add_if_better db
          (record {
            destination = destination.address;
            next_hop = peer_address;
            capacity = capacity;
            height = get_block_height db;
          })
          entry

-- `routingEntry.capacity = balance` through the pointer.
unfoldable pub set_capacity : Ref → ℤ → Db → Db
set_capacity r balance db = record db {
  cells = λ q. if q == r then record (db.cells r) { capacity = balance } else db.cells q;
}

-- The inner loop of SynchronizeRoutingDB over the entries that were read at the start of the pass.
unfoldable pub lower_capacities : Bytes → ℤ → Db → List Ref → Db
unfolding set_capacity
lower_capacities neighbour balance db [] = db
lower_capacities neighbour balance db (r ∷ rs) =
    lower_capacities neighbour balance
      (if bytes_eq (db.cells r).next_hop neighbour && ltb_ℤ balance (db.cells r).capacity
        then set_capacity r balance db
        else db)
      rs

-- One channel in the loop of SynchronizeRoutingDB.
unfoldable pub synchronize_channel : Lnd → List Ref → Db → Channel → Run Db
synchronize_channel ln_client entries db channel = do
  neighbour_pub_key ← pub_key_string_to_array channel.remote_pubkey
  (neighbour_address, registered) ← get_node_address db neighbour_pub_key
  if registered
      then add_new_destination_to_db
          (lower_capacities neighbour_address channel.local_balance db entries)
          (record { address = neighbour_address; capacity = channel.local_balance })
          neighbour_pub_key ln_client
      else ok db

-- One pass of the loop of SynchronizeRoutingDB, between two sleeps.
unfoldable pub synchronize_routing_pass : Db → Lnd → Run Db
synchronize_routing_pass db ln_client = do
  channels ← get_local_channels ln_client
  let entries = Stack.peek_from_block db.cells genesis_block db.routing_entries_stack
  for_each (synchronize_channel ln_client entries) db channels
