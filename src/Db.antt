-- ===== src/Db.antt =====
-- ldrlib/db.go: the state of the routing database. `cells` and `next` are the routing entries that
-- the program allocated, by number; `address_file` and `routing_file` are the two files under
-- filePath. A `*node` in keyToAddressMap is the path that leads to the node.
pub mod Addresses
pub mod Routing
pub mod Lnd
pub mod Disk
pub mod Registration
pub mod Valid
use ld_routing.Base.{ℕ, zero, suc, ◌+◌, none, List, [], replicate, ◌==◌, if◌then◌else◌}
use ld_routing.Base.Int.{pos}
use ld_routing.Base.Bytes.{Bytes}
use ld_routing.Wire.Bits.{Bits}
use ld_routing.Wire.Types.{Ref, AddressInfo, RoutingEntry}
use ld_routing.Tree.{Tree, create_binary_tree}
use ld_routing.Stack.{RoutingStack, create_routing_stack}

pub record Db : Type 0 where
  pub height : ℕ
  pub address_tree_head : Tree AddressInfo
  pub key_to_address_map : List (Bytes × Bits)
  pub routing_entries_stack : RoutingStack
  pub local_address : Bytes
  pub dest_conns : List (Bytes × Ref)
  pub cells : Ref → RoutingEntry
  pub next : Ref
  pub address_file : Bytes
  pub routing_file : Bytes

abbrev pub genesis_block : ℕ
genesis_block = 0

abbrev pub zero_address : Bytes
zero_address = replicate 4 0

abbrev pub zero_pub_key : Bytes
zero_pub_key = replicate 33 0

-- What a number stands for that was never allocated: it is not read.
abbrev pub unallocated : Ref → RoutingEntry
unallocated r = record {
  destination = zero_address;
  next_hop = zero_address;
  capacity = pos 0;
  height = 0;
}

-- createDB, over the files that are there.
unfoldable pub create_db : Bytes → Bytes → Db
create_db address_file routing_file = record {
  height = genesis_block;
  address_tree_head = create_binary_tree;
  key_to_address_map = [];
  routing_entries_stack = create_routing_stack;
  local_address = zero_address;
  dest_conns = [];
  cells = unallocated;
  next = 0;
  address_file = address_file;
  routing_file = routing_file;
}

unfoldable pub get_block_height : Db → ℕ
get_block_height db = db.height

unfoldable pub save_local_address : Db → Bytes → Db
save_local_address db local_address = record db { local_address = local_address }

unfoldable pub get_local_address : Db → Bytes
get_local_address db = db.local_address

-- A new `routingEntry`, and the pointer to it.
unfoldable pub allocate : Db → RoutingEntry → Ref × Db
allocate db entry = (
  db.next,
  record db { cells = λ r. if r == db.next then entry else db.cells r; next = db.next + 1 },
)
