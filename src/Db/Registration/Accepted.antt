-- ===== src/Db/Registration/Accepted.antt =====
-- verifyAddressRegistration and the loop of UpdateAddressDB in ldrlib/db.go: which registrations are
-- accepted, and what they leave in the database.
use ld_routing.Base.{
  ◌≡◌, sym, subst, ap, ◌∙◌, inl, inr, true, false, Bool-cases, Option, none, some, [], ◌∷◌, length,
  All, List,
}
use ld_routing.Base.Run.{ok, >>=-eq-ok, for_each}
use ld_routing.Base.Bytes.{Bytes}
use ld_routing.Wire.Types.{AddressInfo}
use ld_routing.Wire.Codec.{serialize_address_info}
use ld_routing.Bitcoin.{AddressRegistration}
use ld_routing.Db.{Db}
use ld_routing.Db.Addresses.{is_address_registered, add_address_to_db}
use ld_routing.Db.Disk.{save_address_to_file}
use ld_routing.Db.Lnd.{Lnd, verify_message, get_node_neighbours_pub_keys}
use ld_routing.Wire.Bits.{byte_to_bit}
use ld_routing.Wire.Hex.{pub_key_string_to_array}
use ld_routing.Tree.Laws.{lookup}
use ld_routing.Db.Registration.Neighbours.{Follows}
use ld_routing.Db.Registration.{
  Tally, ask_neighbour, no_tally, passes, validated, verify_address_registration, keep_if_valid,
  apply_registration,
}
use ld_routing.Db.Valid.{IsValid}
use ld_routing.Db.Valid.Address.{Registered, add_address_to_db-Registered}

-- The checks that a registration has passed.
record Passed (db : Db) (ln : Lnd) (registration : AddressRegistration) (info : AddressInfo)
    : Type 0 where
  pub key : Bytes
  pub neighbours : List Bytes
  pub tally : Tally
  pub signed : verify_message ln registration.address registration.sig ≡ ok (true, key)
  pub free : is_address_registered db registration.address ≡ ok false
  pub around : get_node_neighbours_pub_keys ln key ≡ ok neighbours
  pub asked : for_each (ask_neighbour db registration.address) no_tally neighbours ≡ ok tally
  pub follows : passes tally ≡ true
  pub same : info ≡ validated registration key

ok-injective : {A : Type 0} {a b : A} → ok a ≡ ok b → a ≡ b
ok-injective h = cc

some-injective : {A : Type 0} {a b : A} → ok (some a) ≡ ok (some b) → a ≡ b
some-injective h = cc

verify_address_registration-Passed :
    (db : Db) (registration : AddressRegistration) (ln : Lnd) (info : AddressInfo)
    → verify_address_registration db registration ln ≡ ok (some info)
    → Passed db ln registration info
unfolding verify_address_registration
verify_address_registration-Passed db registration ln info h =
    let ((valid, key), e, h1) =
      >>=-eq-ok (verify_message ln registration.address registration.sig) _ h in
    elim (Bool-cases valid) [
      | inr invalid ↦ absurd (cc (rw invalid at h1))
      | inl is_valid ↦
          let (taken, e2, h2) =
            >>=-eq-ok (is_address_registered db registration.address) _ (rw is_valid at h1) in
          elim (Bool-cases taken) [
            | inl t ↦ absurd (cc (rw t at h2))
            | inr t ↦
                let (ns, e3, h3) = >>=-eq-ok (get_node_neighbours_pub_keys ln key) _ (rw t at h2) in
                let (tally, e4, h4) =
                  >>=-eq-ok (for_each (ask_neighbour db registration.address) no_tally ns) _ h3 in
                elim (Bool-cases (passes tally)) [
                  | inl p ↦ record {
                    key = key;
                    neighbours = ns;
                    tally = tally;
                    signed = e ∙ ap (λ b. ok (b, key)) is_valid;
                    free = e2 ∙ ap ok t;
                    around = e3;
                    asked = e4;
                    follows = p;
                    same = sym (some-injective (rw p at h4));
                  }
                  | inr p ↦ absurd (cc (rw p at h4))
                ]
          ]
    ]

-- What is known of a registration that is accepted, and of the address info that it becomes.
pub record IsAccepted (db : Db) (ln : Lnd) (registration : AddressRegistration) (info : AddressInfo)
    : Type 0 where
  pub address : info.address ≡ registration.address
  pub registration_height : info.registration_height ≡ registration.block_height
  pub registration_tx_id : info.registration_tx_id ≡ registration.tx_id
  pub version : info.version ≡ registration.version
  pub routing_entry : info.routing_entry ≡ none
  pub peer_conn : info.peer_conn ≡ none
  -- the lightning node knows the signature for one of the key, which it gives in hexadecimal
  pub signed :
      (pubkey : Bytes) × (ln.verify_message registration.address
          (ln.zbase32_encode registration.sig)
        ≡ some (true, pubkey))
      × (pub_key_string_to_array pubkey ≡ ok info.node_pub_key)
  -- no data stands in the tree at the path of the address
  pub free : lookup (byte_to_bit registration.address) db.address_tree_head ≡ none
  -- the neighbours of the node, and what the rule says of them
  pub follows :
      (neighbours : List Bytes) × (get_node_neighbours_pub_keys ln info.node_pub_key
        ≡ ok neighbours)
      × Follows db registration.address neighbours

saved-IsValid :
    (db db' : Db) (info : AddressInfo)
    → IsValid db
    → save_address_to_file db info ≡ ok db'
    → IsValid db'
unfolding save_address_to_file
saved-IsValid db db' info v h =
    let (bytes, e, h1) = >>=-eq-ok (serialize_address_info info) _ h in
    subst IsValid (ok-injective h1) (record {
      root = v.root;
      in_place = v.in_place;
      keyed = v.keyed;
      pointed = v.pointed;
      stacked = v.stacked;
      distinct = v.distinct;
    })

kept-IsValid :
    (db : Db) (ln : Lnd) (registration : AddressRegistration) (o : Option AddressInfo) (db' : Db)
    → IsValid db
    → length registration.address ≡ 4
    → verify_address_registration db registration ln ≡ ok o
    → keep_if_valid db o ≡ ok db'
    → IsValid db'
unfolding keep_if_valid validated
kept-IsValid db ln registration none db' v n e h = subst IsValid (ok-injective h) v
kept-IsValid db ln registration (some info) db' v n e h =
    let a = verify_address_registration-Passed db registration ln info e in
    let same = a.same in
    let r : Registered info db (add_address_to_db db info) =
      add_address_to_db-Registered db info v (ap (λ (i : AddressInfo). length i.address) same ∙ n)
        (ap (λ (i : AddressInfo). is_address_registered db i.address) same ∙ a.free)
        (ap (λ (i : AddressInfo). i.routing_entry) same) in
    saved-IsValid (add_address_to_db db info) db' info r.valid h

-- Applying the registrations that a scan found, of addresses of four bytes, keeps the database valid,
-- whichever of them are accepted.
pub apply_registration-IsValid :
    (ln : Lnd) (db : Db) (registrations : List AddressRegistration) (db' : Db)
    → IsValid db
    → All (λ (r : AddressRegistration). length r.address ≡ 4) registrations
    → for_each (apply_registration ln) db registrations ≡ ok db'
    → IsValid db'
unfolding for_each apply_registration
apply_registration-IsValid ln db [] db' v n h = subst IsValid (ok-injective h) v
apply_registration-IsValid ln db (r ∷ rs) db' v n h =
    let (next, e, h1) = >>=-eq-ok (apply_registration ln db r) _ h in
    let (o, e2, h2) = >>=-eq-ok (verify_address_registration db r ln) _ e in
    apply_registration-IsValid ln next rs db' (kept-IsValid db ln r o next v n.0 e2 h2) n.1 h1
