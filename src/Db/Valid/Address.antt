-- ===== src/Db/Valid/Address.antt =====
-- addAddressToDB keeps the invariant of the database.
use ld_routing.Base.{
  ◌≡◌, ◌≢◌, refl, sym, ◌∙◌, subst, ap, none, some, true, false, inl, inr, Bool-cases, Option-cases,
  if◌then◌else◌, arith, length, ◌*◌,
}
use ld_routing.Base.Run.{ok}
use ld_routing.Base.Bytes.{Bytes, bytes_eq, bytes_eq_iff, bytes_eq_refl}
use ld_routing.Base.Dict.{find, find-assign}
use ld_routing.Wire.Bits.{Bits, byte_to_bit, length-byte_to_bit}
use ld_routing.Wire.Types.{AddressInfo}
use ld_routing.Tree.{Tree, absent, node, is_registered}
use ld_routing.Tree.Laws.{
  lookup, present, present-lookup-none, lookup-present, is_registered-present, find_data-lookup,
  lookup-insert_self, lookup-insert_ne,
}
use ld_routing.Tree.Shape.{IsRoot, insert-IsRoot}
use ld_routing.Db.{Db, zero_address}
use ld_routing.Db.Addresses.{
  get_address_node, add_address_to_db, get_node_address, is_address_registered,
}
use ld_routing.Db.Valid.{IsValid, entry_path, info_at-lookup}
use ld_routing.Db.Valid.Update.{Bits-discrete, some-injective}

pub root-is_registered :
    (bits : Bits) (t : Tree AddressInfo) → IsRoot 32 t → is_registered bits t ≡ ok (present bits t)
root-is_registered bits absent s = absurd s
root-is_registered bits (node d l r) s = is_registered-present bits d l r

-- GetNodeAddress of a key that is not there, and of one that leads to data.
unknown_node :
    (db : Db) (key : Bytes)
    → find key db.key_to_address_map ≡ none
    → get_node_address db key ≡ ok (zero_address, false)
unfolding get_node_address
unknown_node db key e = rw (e, get_node_address) refl

known_node :
    (db : Db) (key : Bytes) (bits : Bits) (i : AddressInfo)
    → find key db.key_to_address_map ≡ some bits
    → lookup bits db.address_tree_head ≡ some i
    → get_node_address db key ≡ ok (i.address, true)
unfolding get_node_address
known_node db key bits i e l = rw (e, get_node_address, info_at-lookup db bits, l) refl

module _ (db : Db) (v : IsValid db) (info : AddressInfo) (size : length info.address ≡ 4)
    (free : lookup (byte_to_bit info.address) db.address_tree_head ≡ none)
    (bare : info.routing_entry ≡ none) where
  after : Db
  after = add_address_to_db db info

  path : Bits
  path = byte_to_bit info.address

  length-path : length path ≡ 32
  unfolding path
  length-path = length-byte_to_bit info.address ∙ ap (λ k. 8 * k) size

  lookup_there : lookup path after.address_tree_head ≡ some info
  unfolding path after add_address_to_db
  lookup_there = lookup-insert_self (byte_to_bit info.address) info db.address_tree_head

  lookup_elsewhere :
      (bits : Bits)
      → length bits ≡ 32
      → bits ≢ path
      → lookup bits after.address_tree_head ≡ lookup bits db.address_tree_head
  unfolding path after add_address_to_db
  lookup_elsewhere bits n ne =
      lookup-insert_ne (byte_to_bit info.address) bits info db.address_tree_head
        (n ∙ sym length-path) ne

  -- What stood in the tree stands there still.
  stays :
      (bits : Bits) (i : AddressInfo)
      → length bits ≡ 32
      → lookup bits db.address_tree_head ≡ some i
      → lookup bits after.address_tree_head ≡ some i
  unfolding path
  stays bits i n e =
      lookup_elsewhere bits n
        (λ p. cc (sym e ∙ subst (λ b. lookup b db.address_tree_head ≡ none) (sym p) free))
      ∙ e

  key_there :
      (key : Bytes)
      → find key after.key_to_address_map
        ≡ (if bytes_eq info.node_pub_key key then some path else find key db.key_to_address_map)
  unfolding after path add_address_to_db
  key_there key = find-assign info.node_pub_key key (byte_to_bit info.address) db.key_to_address_map

  arrived :
      (bits : Bits) (j : AddressInfo)
      → bits ≡ path
      → lookup bits after.address_tree_head ≡ some j
      → info ≡ j
  arrived bits j p e =
      some-injective (sym lookup_there ∙ subst (λ b. lookup b after.address_tree_head ≡ some j) p e)

  add_address_to_db-IsValid : IsValid after
  unfolding after path add_address_to_db
  add_address_to_db-IsValid = record {
    root = insert-IsRoot 32 (byte_to_bit info.address) info db.address_tree_head length-path v.root;
    in_place = λ bits j n e. elim (Bits-discrete bits path) [
      | yes p ↦
          sym (subst (λ (x : AddressInfo). bits ≡ byte_to_bit x.address) (arrived bits j p e) p)
      | no ne ↦ v.in_place bits j n (sym (lookup_elsewhere bits n ne) ∙ e)
    ];
    keyed = λ key bits e. elim (Bool-cases (bytes_eq info.node_pub_key key)) [
      | inl same ↦
          let p : path ≡ bits = some-injective (sym (key_there key ∙ rw same) ∙ e) in
          (
            sym (ap length p) ∙ length-path,
            (
              info,
              subst (λ b. lookup b after.address_tree_head ≡ some info) p lookup_there,
              (bytes_eq_iff info.node_pub_key key).0 same,
            ),
          )
      | inr other ↦
          let (n, (j, old, k)) = v.keyed key bits (sym (key_there key ∙ rw other) ∙ e) in
          (n, (j, stays bits j n old, k))
    ];
    pointed = λ bits j q n e p. elim (Bits-discrete bits path) [
      | yes same ↦
          absurd
            (cc (sym bare ∙ ap (λ (x : AddressInfo). x.routing_entry) (arrived bits j same e) ∙ p))
      | no ne ↦ v.pointed bits j q n (sym (lookup_elsewhere bits n ne) ∙ e) p
    ];
    stacked = λ q m.
        let (h, n, (j, e, p)) = v.stacked q m in (h, n, (j, stays (entry_path db q) j n e, p));
    distinct = v.distinct;
  }

  taken : is_address_registered after info.address ≡ ok true
  unfolding is_address_registered path
  taken =
      root-is_registered path after.address_tree_head add_address_to_db-IsValid.root
      ∙ ap ok (lookup-present path after.address_tree_head info lookup_there)

  node_of_address : get_address_node after info.address ≡ ok info.node_pub_key
  unfolding get_address_node path
  node_of_address = rw (find_data-lookup path after.address_tree_head info lookup_there) refl

  address_of_node : get_node_address after info.node_pub_key ≡ ok (info.address, true)
  address_of_node =
      known_node after info.node_pub_key path info
        (key_there info.node_pub_key ∙ rw (bytes_eq_refl info.node_pub_key) refl) lookup_there

  others :
      (key : Bytes) → key ≢ info.node_pub_key → get_node_address after key ≡ get_node_address db key
  others key ne =
      let old : bytes_eq info.node_pub_key key ≡ false =
        ground (bytes_eq_iff info.node_pub_key key, ne, arith) in
      let e : find key after.key_to_address_map ≡ find key db.key_to_address_map =
        key_there key ∙ rw old refl in
      elim (Option-cases (find key db.key_to_address_map)) [
        | inl n ↦ unknown_node after key (e ∙ n) ∙ sym (unknown_node db key n)
        | inr (bits, f) ↦
            let (n, (i, l, k)) = v.keyed key bits f in
            known_node after key bits i (e ∙ f) (stays bits i n l)
            ∙ sym (known_node db key bits i f l)
      ]

-- What registering an address did: the address and its node lead to each other, and the other
-- nodes keep their addresses.
pub record Registered (info : AddressInfo) (before after : Db) : Type 0 where
  pub valid : IsValid after
  pub taken : is_address_registered after info.address ≡ ok true
  pub address_of_node : get_node_address after info.node_pub_key ≡ ok (info.address, true)
  pub node_of_address : get_address_node after info.address ≡ ok info.node_pub_key
  pub others :
      (key : Bytes)
      → key ≢ info.node_pub_key
      → get_node_address after key ≡ get_node_address before key

-- In a valid database, an address of four bytes that is free can be registered, without an entry: the database stays valid, the
-- address and its node lead to each other, and the other nodes keep their addresses.
pub add_address_to_db-Registered :
    (db : Db) (info : AddressInfo)
    → IsValid db
    → length info.address ≡ 4
    → is_address_registered db info.address ≡ ok false
    → info.routing_entry ≡ none
    → Registered info db (add_address_to_db db info)
unfolding is_address_registered after
add_address_to_db-Registered db info v size free bare =
    let gone : lookup (byte_to_bit info.address) db.address_tree_head ≡ none =
      present-lookup-none _ _ (
        cc (
          sym (root-is_registered (byte_to_bit info.address) db.address_tree_head v.root)
          ∙ free)) in
    record {
      valid = add_address_to_db-IsValid db v info size gone bare;
      taken = taken db v info size gone bare;
      address_of_node = address_of_node db v info size gone bare;
      node_of_address = node_of_address db v info size gone bare;
      others = others db v info size gone bare;
    }
