-- ===== src/Db/Addresses.antt =====
-- ldrlib/db.go: registered addresses, their nodes and their connections.
use ld_routing.Base.{Bool, true, false, Option, none, some}
use ld_routing.Base.Run.{Run, ok, ◌>>=◌}
use ld_routing.Base.Bytes.{Bytes}
use ld_routing.Base.Dict.{find, assign, delete}
use ld_routing.Wire.Bits.{Bits, byte_to_bit}
use ld_routing.Wire.Types.{Ref, AddressInfo}
use ld_routing.Tree
use ld_routing.Tree.{Tree, walk, get_data, find_data, insert, modify}
use ld_routing.Suggest
use ld_routing.Db.{Db, zero_address, zero_pub_key}

-- The walk to the node of a path, and its data.
unfoldable pub info_at : Db → Bits → Run AddressInfo
info_at db bits = do head ← walk bits db.address_tree_head; get_data head

unfoldable pub get_node_address : Db → Bytes → Run (Bytes × Bool)
get_node_address db pubkey = elim (find pubkey db.key_to_address_map) [
  | none ↦ ok (zero_address, false)
  | some address_node ↦ do info ← info_at db address_node; ok (info.address, true)
]

unfoldable pub get_address_node : Db → Bytes → Run Bytes
get_address_node db address = do
  found ← find_data (byte_to_bit address) db.address_tree_head
  elim found [ none ↦ ok zero_pub_key | some info ↦ ok info.node_pub_key ]

unfoldable pub is_node_registered : Db → Bytes → Bool
is_node_registered db pubkey = elim (find pubkey db.key_to_address_map) [
  | none ↦ false
  | some _ ↦ true
]

unfoldable pub is_address_registered : Db → Bytes → Run Bool
is_address_registered db address = Tree.is_registered (byte_to_bit address) db.address_tree_head

unfoldable pub suggest_address : Db → Bytes → Run Bytes
suggest_address db seed_address = Suggest.suggest_address db.address_tree_head seed_address

unfoldable pub add_address_to_db : Db → AddressInfo → Db
add_address_to_db db info = record db {
  address_tree_head = insert (byte_to_bit info.address) info db.address_tree_head;
  key_to_address_map = assign info.node_pub_key (byte_to_bit info.address) db.key_to_address_map;
}

unfoldable pub get_peer_conn : Db → Bytes → Run (Option Ref)
get_peer_conn db destination = do info ← info_at db (byte_to_bit destination); ok info.peer_conn

unfoldable pub add_peer_conn_to_db : Db → Bytes → Ref → Run Db
add_peer_conn_to_db db address peer_conn = do
  info ← info_at db (byte_to_bit address)
  ok (record db {
    address_tree_head =
        modify (byte_to_bit address) (λ i. record i { peer_conn = some peer_conn })
          db.address_tree_head;
  })

unfoldable pub get_dest_conn : Db → Bytes → Option Ref
get_dest_conn db token = find token db.dest_conns

unfoldable pub add_dest_conn_to_db : Db → Bytes → Ref → Db
add_dest_conn_to_db db token dest_conn = record db {
  dest_conns = assign token dest_conn db.dest_conns;
}

unfoldable pub remove_dest_conn_from_db : Db → Bytes → Db
remove_dest_conn_from_db db token = record db { dest_conns = delete token db.dest_conns }
