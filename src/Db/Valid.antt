-- ===== src/Db/Valid.antt =====
-- The invariant of the routing database: the tree, the map of keys and the stack agree.
pub mod Update
pub mod Added
pub mod Address
pub mod Created
pub mod Destination
pub mod Pass
use ld_routing.Base.{
  ℕ, suc, ◌<◌, ◌≡◌, ◌≢◌, refl, sym, ◌∙◌, subst, ap, Bool, true, false, Option, none, some, List, [],
  ◌∷◌, arith, length, ==_iff, ◌==◌, if◌then◌else◌, ◌+◌,
}
use ld_routing.Base.Run.{Run, ok, panic, ◌>>=◌, or_panic}
use ld_routing.Base.Bytes.{Bytes, IsBytes}
use ld_routing.Base.Dict.{find}
use ld_routing.Wire.Bits.{Bits, byte_to_bit}
use ld_routing.Wire.Types.{Ref, AddressInfo, RoutingEntry}
use ld_routing.Tree.{Tree}
use ld_routing.Tree.Laws.{lookup, walk-get_data}
use ld_routing.Tree.Shape.{IsRoot}
use ld_routing.Stack.Laws.{Member, Distinct}
use ld_routing.Db.{Db, allocate}
use ld_routing.Db.Addresses.{info_at}

-- The path of a routing entry's destination.
abbrev pub entry_path : Db → Ref → Bits
entry_path db r = byte_to_bit (db.cells r).destination

-- An address info at the path of a routing entry that points to it.
abbrev pub Holds : Db → Ref → Type 0
Holds db r =
    (i : AddressInfo) × (lookup (entry_path db r) db.address_tree_head ≡ some i)
    × (i.routing_entry ≡ some r)

pub record IsValid (db : Db) : Type 0 where
  pub root : IsRoot 32 db.address_tree_head
  -- an address info stands at the path of its address
  pub in_place :
      (bits : Bits) (i : AddressInfo)
      → length bits ≡ 32
      → lookup bits db.address_tree_head ≡ some i
      → byte_to_bit i.address ≡ bits
  -- a registered key leads to a node with data, of that key
  pub keyed :
      (key : Bytes) (bits : Bits)
      → find key db.key_to_address_map ≡ some bits
      → (length bits ≡ 32)
        × ((i : AddressInfo) × (lookup bits db.address_tree_head ≡ some i) × (i.node_pub_key ≡ key))
  -- an entry of the tree is on the stack, and is about the address that it stands at
  pub pointed :
      (bits : Bits) (i : AddressInfo) (r : Ref)
      → length bits ≡ 32
      → lookup bits db.address_tree_head ≡ some i
      → i.routing_entry ≡ some r
      → Member r db.routing_entries_stack × (entry_path db r ≡ bits)
  -- an entry of the stack is in the tree
  pub stacked :
      (r : Ref)
      → Member r db.routing_entries_stack
      → (r < db.next) × (length (entry_path db r) ≡ 32) × Holds db r
  pub distinct : Distinct db.routing_entries_stack

-- The walk to a path reads the tree as a map.
pub info_at-lookup :
    (db : Db) (bits : Bits) → info_at db bits ≡ or_panic (lookup bits db.address_tree_head)
unfolding info_at
info_at-lookup db bits = walk-get_data bits db.address_tree_head

-- An allocation leaves what was allocated before.
pub cells-allocate :
    (db : Db) (entry : RoutingEntry) (r : Ref)
    → r < db.next
    → (allocate db entry).1.cells r ≡ db.cells r
unfolding allocate
cells-allocate db entry r h = ground arith

pub cells-allocate_self :
    (db : Db) (entry : RoutingEntry) → (allocate db entry).1.cells db.next ≡ entry
unfolding allocate
cells-allocate_self db entry = ground arith

pub allocate-IsValid : (db : Db) (entry : RoutingEntry) → IsValid db → IsValid (allocate db entry).1
unfolding allocate
allocate-IsValid db entry v =
    let db' = (allocate db entry).1 in
    let same : (r : Ref) → r < db.next → entry_path db' r ≡ entry_path db r =
      λ r h. ap (λ (e : RoutingEntry). byte_to_bit e.destination) (cells-allocate db entry r h) in
    record {
      root = v.root;
      in_place = v.in_place;
      keyed = v.keyed;
      pointed = λ bits i r n e p.
          let (m, q) = v.pointed bits i r n e p in (m, same r (v.stacked r m).0 ∙ q);
      stacked = λ r m.
          let (h, n, (i, e, p)) = v.stacked r m in
          (omega arith, rw (same r h) n, (i, rw (same r h) e, p));
      distinct = v.distinct;
    }
