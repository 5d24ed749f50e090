-- ===== src/Db/Valid/Destination.antt =====
-- addNewDestinationToDB of ldrlib/db.go keeps the invariant of the database.
use ld_routing.Base.{
  ◌≡◌, sym, subst, ◌∙◌, inl, inr, Bool-cases, Option-cases, Option, none, some, length,
}
use ld_routing.Base.Int.{ltb_ℤ}
use ld_routing.Base.Run.{ok, >>=-eq-ok}
use ld_routing.Base.Bytes.{Bytes, bytes_eq}
use ld_routing.Wire.Bits.{byte_to_bit}
use ld_routing.Wire.Types.{Ref, RoutingEntry, Destination}
use ld_routing.Tree.Laws.{lookup}
use ld_routing.Db.{Db, get_local_address}
use ld_routing.Db.Addresses.{get_node_address}
use ld_routing.Db.Lnd.{Lnd, get_local_channels}
use ld_routing.Db.Routing.{
  get_routing_entry, add_new_entry, add_if_better, add_new_destination_to_db,
}
use ld_routing.Db.Valid.{IsValid}
use ld_routing.Db.Valid.Added.{entry_at, add_new_entry-AddedNew}

ok-injective : {A : Type 0} {a b : A} → ok a ≡ ok b → a ≡ b
ok-injective h = cc

new_entry-IsValid :
    (db : Db) (entry : RoutingEntry) (o : Option Ref) (db' : Db)
    → IsValid db
    → length entry.destination ≡ 4
    → get_routing_entry db entry.destination ≡ ok o
    → add_new_entry db entry ≡ ok db'
    → IsValid db'
new_entry-IsValid db entry o db' v n found h =
    elim (Option-cases (lookup (byte_to_bit entry.destination) db.address_tree_head)) [
      | inl gone ↦ absurd (cc (rw gone at (sym (entry_at db entry.destination) ∙ found)))
      | inr (i, there) ↦
          let (db'', e, a) = add_new_entry-AddedNew db entry i v n there in
          subst IsValid (ok-injective (sym e ∙ h)) a.valid
    ]

better-IsValid :
    (db : Db) (entry : RoutingEntry) (o : Option Ref) (db' : Db)
    → IsValid db
    → length entry.destination ≡ 4
    → get_routing_entry db entry.destination ≡ ok o
    → add_if_better db entry o ≡ ok db'
    → IsValid db'
unfolding add_if_better
better-IsValid db entry none db' v n found h = new_entry-IsValid db entry none db' v n found h
better-IsValid db entry (some r) db' v n found h =
    elim (Bool-cases (ltb_ℤ entry.capacity (db.cells r).capacity)) [
      | inl worse ↦ subst IsValid (ok-injective (rw worse at h)) v
      | inr better ↦ new_entry-IsValid db entry (some r) db' v n found (rw better at h)
    ]

-- Adding a destination with an address of four bytes keeps a valid database valid, whether an entry
-- is added, replaced or left.
pub add_new_destination_to_db-IsValid :
    (db : Db) (destination : Destination) (key : Bytes) (ln : Lnd) (db' : Db)
    → IsValid db
    → length destination.address ≡ 4
    → add_new_destination_to_db db destination key ln ≡ ok db'
    → IsValid db'
unfolding add_new_destination_to_db
add_new_destination_to_db-IsValid db destination key ln db' v n h =
    elim (Bool-cases (bytes_eq destination.address (get_local_address db))) [
      | inl own ↦ subst IsValid (ok-injective (rw own at h)) v
      | inr other ↦
          let (peer, e1, h1) = >>=-eq-ok (get_node_address db key) _ (rw other at h) in
          let (channels, e2, h2) = >>=-eq-ok (get_local_channels ln) _ h1 in
          let (entry, e3, h3) = >>=-eq-ok (get_routing_entry db destination.address) _ h2 in
          better-IsValid db _ entry db' v n e3 h3
    ]
