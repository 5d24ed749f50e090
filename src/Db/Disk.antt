-- ===== src/Db/Disk.antt =====
-- ldrlib/db.go: the address file and the routing file. A failed open, stat, read or write ends the
-- process, so the files here are the ones that can be used.
pub mod Reload
use ld_routing.Base.{
  ℕ, zero, suc, List, [], ◌∷◌, ◌++◌, ◌==◌, if◌then◌else◌, length, take, drop, replicate,
}
use ld_routing.Base.Run.{Run, ok, ◌>>=◌, for_each}
use ld_routing.Base.Bytes.{Bytes}
use ld_routing.Wire.Types.{Ref, AddressInfo, RoutingEntry}
use ld_routing.Wire.Codec.{
  serialize_block_height, deserialize_block_height, serialize_address_info,
  deserialize_address_info, serialize_routing_entry, deserialize_routing_entry,
  address_info_serialized_size,
}
use ld_routing.Stack
use ld_routing.Db.{Db, genesis_block, create_db}
use ld_routing.Db.Addresses.{add_address_to_db}
use ld_routing.Db.Routing.{add_new_entry}

abbrev pub routing_entry_serialized_size : ℕ
routing_entry_serialized_size = 24

abbrev pub block_height_serialized_size : ℕ
block_height_serialized_size = 8

-- A write at the start of a file that is not truncated.
abbrev pub write_over : Bytes → Bytes → Bytes
write_over new old = new ++ drop (length new) old

unfoldable pub update_block_height : Db → ℕ → Db
update_block_height db block_height = record db {
  height = block_height;
  address_file = write_over (serialize_block_height block_height) db.address_file;
}

-- The file is opened for appending.
unfoldable pub save_address_to_file : Db → AddressInfo → Run Db
save_address_to_file db info = do
  bytes ← serialize_address_info info
  ok (record db { address_file = db.address_file ++ bytes })

-- The bytes of the entries in the order of the stack.
unfoldable pub serialize_entries : (Ref → RoutingEntry) → List Ref → Bytes
serialize_entries cells [] = []
serialize_entries cells (r ∷ rs) = serialize_routing_entry (cells r) ++ serialize_entries cells rs

unfoldable pub save_routing_db_to_file : Db → Db
save_routing_db_to_file db =
    let entries = Stack.peek_from_block db.cells genesis_block db.routing_entries_stack in
    record db { routing_file = write_over (serialize_entries db.cells entries) db.routing_file }

-- One Read into a buffer: what the file still has, at most the buffer's size.
abbrev pub read_into : Bytes → Bytes → Bytes
read_into buffer rest = write_over (take (length buffer) rest) buffer

-- The buffers of a loop of Reads up to the end of the file; a short last Read leaves the end of the
-- buffer as it was. `fuel` is at least the number of bytes that are left.
unfoldable pub read_records : ℕ → Bytes → Bytes → List Bytes
read_records fuel buffer [] = []
read_records zero buffer (b ∷ rest) = []
read_records (suc fuel) buffer (b ∷ rest) =
    let filled = read_into buffer (b ∷ rest) in
    filled ∷ read_records fuel filled (drop (length buffer) (b ∷ rest))

unfoldable pub load_address : Db → Bytes → Run Db
load_address db bytes = do info ← deserialize_address_info bytes; ok (add_address_to_db db info)

unfoldable pub load_routing_entry : Db → Bytes → Run Db
load_routing_entry db bytes = do entry ← deserialize_routing_entry bytes; add_new_entry db entry

-- The height, which is written back at once, and the records behind what the first Read took.
unfoldable pub read_address_file : Db → Run Db
read_address_file db = do
  let buffer = replicate block_height_serialized_size 0
  height ← deserialize_block_height (read_into buffer db.address_file)
  let db' = update_block_height db height
  let rest = drop (length (take block_height_serialized_size db.address_file)) db'.address_file
  for_each load_address db'
      (read_records (length rest) (replicate address_info_serialized_size 0) rest)

unfoldable pub read_routing_file : Db → Run Db
read_routing_file db = for_each load_routing_entry db (
    read_records (length db.routing_file) (replicate routing_entry_serialized_size 0)
      db.routing_file)

unfoldable pub read_db_from_disk : Bytes → Bytes → Run Db
read_db_from_disk address_file routing_file = do
  let db = create_db address_file routing_file
  loaded ←
      (if length address_file == 0
        then ok (update_block_height db genesis_block)
        else read_address_file db)
  if length routing_file == 0 then ok loaded else read_routing_file loaded
