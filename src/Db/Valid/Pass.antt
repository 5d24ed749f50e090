-- ===== src/Db/Valid/Pass.antt =====
-- SynchronizeRoutingDB of ldrlib/db.go: a pass over the local channels.
use ld_routing.Base.{
  ◌≡◌, refl, sym, ◌∙◌, ap, subst, Bool, true, ◌&&◌, some, List, [], ◌∷◌, ◌==◌, ==_iff, inl, inr,
  Bool-cases, Option-cases, length, arith,
}
use ld_routing.Base.Int.{ℤ, ltb_ℤ}
use ld_routing.Base.Run.{ok, ◌>>=◌, >>=-eq-ok, for_each}
use ld_routing.Base.Bytes.{Bytes, bytes_eq}
use ld_routing.Base.Dict.{find}
use ld_routing.Wire.Bits.{Bits, byte_to_bit, length-byte_to_bit}
use ld_routing.Wire.Types.{Ref, RoutingEntry}
use ld_routing.Wire.Hex.{pub_key_string_to_array}
use ld_routing.Db.{Db, genesis_block}
use ld_routing.Db.Addresses.{info_at, get_node_address}
use ld_routing.Db.Lnd.{Lnd, Channel, get_local_channels}
use ld_routing.Db.Routing.{
  set_capacity, lower_capacities, synchronize_channel, synchronize_routing_pass,
}
use ld_routing.Stack
use ld_routing.Db.Valid.{IsValid, entry_path, info_at-lookup}
use ld_routing.Db.Valid.Destination.{add_new_destination_to_db-IsValid}

ok-injective : {A : Type 0} {a b : A} → ok a ≡ ok b → a ≡ b
ok-injective h = cc

-- Entries that stay about their destinations.
cells-IsValid :
    (db : Db) (cells : Ref → RoutingEntry)
    → ((r : Ref) → (cells r).destination ≡ (db.cells r).destination)
    → IsValid db
    → IsValid (record db { cells = cells })
cells-IsValid db cells same v =
    let path : (r : Ref) → byte_to_bit (cells r).destination ≡ entry_path db r =
      λ r. ap byte_to_bit (same r) in
    record {
      root = v.root;
      in_place = v.in_place;
      keyed = v.keyed;
      pointed = λ bits i r n e p. let (m, q) = v.pointed bits i r n e p in (m, path r ∙ q);
      stacked =
          λ r m. let (h, n, (i, e, p)) = v.stacked r m in (h, rw (path r) n, (i, rw (path r) e, p));
      distinct = v.distinct;
    }

set_capacity-destination :
    (r q : Ref) (balance : ℤ) (db : Db)
    → ((set_capacity r balance db).cells q).destination ≡ (db.cells q).destination
unfolding set_capacity
set_capacity-destination r q balance db = elim (Bool-cases (q == r)) [
  | inl e ↦ rw e (ap (λ x. (db.cells x).destination) (sym ((==_iff q r).0 e)))
  | inr e ↦ rw e refl
]

set_capacity-IsValid :
    (r : Ref) (balance : ℤ) (db : Db) → IsValid db → IsValid (set_capacity r balance db)
unfolding set_capacity
set_capacity-IsValid r balance db v =
    cells-IsValid db (set_capacity r balance db).cells
      (λ q. set_capacity-destination r q balance db) v

lower_capacities-IsValid :
    (neighbour : Bytes) (balance : ℤ) (db : Db) (rs : List Ref)
    → IsValid db
    → IsValid (lower_capacities neighbour balance db rs)
unfolding lower_capacities
lower_capacities-IsValid neighbour balance db [] v = v
lower_capacities-IsValid neighbour balance db (r ∷ rs) v =
    elim (Bool-cases
      (bytes_eq (db.cells r).next_hop neighbour && ltb_ℤ balance (db.cells r).capacity)) [
        | inl e ↦ rw e (
            lower_capacities-IsValid neighbour balance (set_capacity r balance db) rs
              (set_capacity-IsValid r balance db v))
        | inr e ↦ rw e (lower_capacities-IsValid neighbour balance db rs v)
      ]

-- A registered node has an address of four bytes.
address-length :
    (db : Db) (key address : Bytes) (bits : Bits)
    → IsValid db
    → find key db.key_to_address_map ≡ some bits
    → ◌>>=◌ {T = Bytes × Bool} (info_at db bits) (λ info. ok (info.address, true))
      ≡ ok (address, true)
    → length address ≡ 4
address-length db key address bits v e h =
    let (n, (i, l, k)) = v.keyed key bits e in
    let found : info_at db bits ≡ ok i = info_at-lookup db bits ∙ rw l refl in
    let same : i.address ≡ address =
      ap (λ (p : Bytes × Bool). p.0) (ok-injective (rw found at h)) in
    let size = ap length (v.in_place bits i n l) in
    omega (arith, length-byte_to_bit i.address, size, n, ap length same)

get_node_address-length :
    (db : Db) (key address : Bytes)
    → IsValid db
    → get_node_address db key ≡ ok (address, true)
    → length address ≡ 4
unfolding get_node_address
get_node_address-length db key address v h = elim (Option-cases (find key db.key_to_address_map)) [
  | inl none_ ↦ absurd (cc (ok-injective (rw (none_, get_node_address) at h)))
  | inr (bits, some_) ↦
      address-length db key address bits v some_ (rw (some_, get_node_address) at h)
]

synchronize_channel-IsValid :
    (ln : Lnd) (entries : List Ref) (db db' : Db) (channel : Channel)
    → IsValid db
    → synchronize_channel ln entries db channel ≡ ok db'
    → IsValid db'
unfolding synchronize_channel
synchronize_channel-IsValid ln entries db db' channel v h =
    let (key, _, h1) = >>=-eq-ok (pub_key_string_to_array channel.remote_pubkey) _ h in
    let ((address, registered), e, h2) = >>=-eq-ok (get_node_address db key) _ h1 in
    elim (Bool-cases registered) [
      | inl yes_ ↦
          let lowered = lower_capacities address channel.local_balance db entries in
          add_new_destination_to_db-IsValid lowered
            (record { address = address; capacity = channel.local_balance }) key ln db'
            (lower_capacities-IsValid address channel.local_balance db entries v)
            (get_node_address-length db key address v (e ∙ ap (λ b. ok (address, b)) yes_))
            (rw yes_ at h2)
      | inr no_ ↦ subst IsValid (ok-injective (rw no_ at h2)) v
    ]

channels-IsValid :
    (ln : Lnd) (entries : List Ref) (channels : List Channel) (db db' : Db)
    → IsValid db
    → for_each (synchronize_channel ln entries) db channels ≡ ok db'
    → IsValid db'
unfolding for_each
channels-IsValid ln entries [] db db' v h = subst IsValid (ok-injective h) v
channels-IsValid ln entries (c ∷ cs) db db' v h =
    let (next, e, h1) = >>=-eq-ok (synchronize_channel ln entries db c) _ h in
    channels-IsValid ln entries cs next db' (synchronize_channel-IsValid ln entries db next c v e)
      h1

-- A pass of SynchronizeRoutingDB over the local channels keeps a valid database valid.
pub synchronize_routing_pass-IsValid :
    (db db' : Db) (ln : Lnd) → IsValid db → synchronize_routing_pass db ln ≡ ok db' → IsValid db'
unfolding synchronize_routing_pass
synchronize_routing_pass-IsValid db db' ln v h =
    let (channels, _, h1) = >>=-eq-ok (get_local_channels ln) _ h in
    channels-IsValid ln (Stack.peek_from_block db.cells genesis_block db.routing_entries_stack)
      channels db db' v h1
