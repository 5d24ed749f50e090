-- ===== src/Peer/Handshake/Checked.antt =====
-- The checks of offerPeerHandshake and acceptPeerHandshake of ldrlib/networking.go: what a peer that
-- passes them has shown.
use ld_routing.Base.{
  ◌+◌, ◌-◌, ◌&&◌, ◌≡◌, refl, sym, ◌∙◌, ap, subst, true, false, Bool, some, inl, inr, Bool-cases,
  Option-cases, List, [], ◌∷◌, leb, length, take, drop, SomeOf, ℕ,
}
use ld_routing.Base.Run.{ok, >>=-eq-ok}
use ld_routing.Base.Bytes.{Bytes, bytes_eq, bytes_eq_iff, slice}
use ld_routing.Base.Dict.{find}
use ld_routing.Wire.Bits.{byte_to_bit}
use ld_routing.Wire.Types.{AddressInfo}
use ld_routing.Wire.Hex.{pub_key_string_to_array}
use ld_routing.Tree.Laws.{lookup}
use ld_routing.Db.{Db}
use ld_routing.Db.Addresses.{is_node_registered}
use ld_routing.Db.Valid.{IsValid}
use ld_routing.Db.Lnd.{Lnd, Channel, verify_message, get_local_node_neighbours_pub_keys}
use ld_routing.Db.Lnd.Answers.{
  LeadsTo, verify_message-answer, get_local_node_neighbours_pub_keys-channels,
}
use ld_routing.Peer.Handshake.{
  rsa_key_size, signature_size, fatal_unless, shares_channel, check_peer,
}

-- What a peer has shown when it passes the checks of either handshake.
pub record IsChecked (db : Db) (client : Lnd) (message peer_pub_key lightning_key : Bytes)
    : Type 0 where
  -- the message begins with the RSA key
  pub sent : peer_pub_key ≡ take 459 message
  -- the lightning node has verified what follows for a signature of that key
  pub signed :
      (pubkey : Bytes) × (client.verify_message peer_pub_key
          (client.zbase32_encode (take 65 (drop 459 message)))
        ≡ some (true, pubkey))
      × (pub_key_string_to_array pubkey ≡ ok lightning_key)
  -- one of the local channels leads to the lightning key
  pub neighbour :
      (channels : List Channel) × (client.list_channels ≡ some channels)
      × SomeOf (LeadsTo lightning_key) channels
  -- the tree has an address of the lightning key
  pub registered :
      (info : AddressInfo) × (lookup (byte_to_bit info.address) db.address_tree_head ≡ some info)
      × (info.node_pub_key ≡ lightning_key)

unless_ok : (b : Bool) → fatal_unless b ≡ ok tt → b ≡ true
unless_ok true h = refl
unless_ok false h = cc

ok-injective : {A : Type 0} {a b : A} → ok a ≡ ok b → a ≡ b
ok-injective h = cc

slice-take :
    (lo hi : ℕ) (bs part : Bytes) → slice lo hi bs ≡ ok part → part ≡ take (hi - lo) (drop lo bs)
unfolding slice
slice-take lo hi bs part h = elim (Bool-cases (leb lo hi && leb hi (length bs))) [
  | inl fits ↦ sym (ok-injective (rw (fits, slice) at h))
  | inr out ↦ absurd (cc (rw (out, slice) at h))
]

shares_channel-SomeOf :
    (neighbours : List Bytes) (key : Bytes)
    → shares_channel neighbours key ≡ true
    → SomeOf (λ k. k ≡ key) neighbours
unfolding shares_channel
shares_channel-SomeOf [] key h = cc
shares_channel-SomeOf (n ∷ ns) key h = elim (Bool-cases (bytes_eq n key)) [
  | inl same ↦ inl ((bytes_eq_iff n key).0 same)
  | inr other ↦ inr (shares_channel-SomeOf ns key (rw (other, shares_channel) at h))
]

is_node_registered-lookup :
    (db : Db) (key : Bytes)
    → IsValid db
    → is_node_registered db key ≡ true
    → (info : AddressInfo) × (lookup (byte_to_bit info.address) db.address_tree_head ≡ some info)
      × (info.node_pub_key ≡ key)
unfolding is_node_registered
is_node_registered-lookup db key v h = elim (Option-cases (find key db.key_to_address_map)) [
  | inl e ↦ absurd (cc (rw (e, is_node_registered) at h))
  | inr (bits, e) ↦
      let (size, (info, there, of_key)) = v.keyed key bits e in
      (
        info,
        ap (λ path. lookup path db.address_tree_head) (v.in_place bits info size there) ∙ there,
        of_key,
      )
]

-- Over a valid database, a peer that passes the checks of the handshake has sent its RSA key first
-- and then a signature of it that the lightning node verifies for the lightning key; a local channel
-- leads to that key, and an address of the key stands in the tree.
pub check_peer-IsChecked :
    (db : Db) (client : Lnd) (message peer_pub_key lightning_key : Bytes)
    → IsValid db
    → check_peer db client message ≡ ok (peer_pub_key, lightning_key)
    → IsChecked db client message peer_pub_key lightning_key
unfolding check_peer
check_peer-IsChecked db client message peer_pub_key lightning_key v h =
    let (k, e1, h1) = >>=-eq-ok (slice 0 rsa_key_size message) _ h in
    let (s, e2, h2) = >>=-eq-ok (slice rsa_key_size (rsa_key_size + signature_size) message) _ h1 in
    let ((verified, l), e3, h3) = >>=-eq-ok (verify_message client k s) _ h2 in
    let (_, e4, h4) = >>=-eq-ok (fatal_unless verified) _ h3 in
    let (ns, e5, h5) = >>=-eq-ok (get_local_node_neighbours_pub_keys client) _ h4 in
    let (_, e6, h6) = >>=-eq-ok (fatal_unless (shares_channel ns l)) _ h5 in
    let (_, e7, h7) = >>=-eq-ok (fatal_unless (is_node_registered db l)) _ h6 in
    let same : (k, l) ≡ (peer_pub_key, lightning_key) = ok-injective h7 in
    let cut : s ≡ take 65 (drop 459 message) =
      slice-take rsa_key_size (rsa_key_size + signature_size) message s e2 in
    let answer = e3 ∙ ap (λ b. ok (b, l)) (unless_ok verified e4) in
    let found = shares_channel-SomeOf ns l (unless_ok (shares_channel ns l) e6) in
    subst (λ p. IsChecked db client message p.0 p.1) same
      (record {
        sent = slice-take 0 rsa_key_size message k e1;
        signed =
            verify_message-answer client k (take 65 (drop 459 message)) l true
              (ap (verify_message client k) (sym cut) ∙ answer);
        neighbour = get_local_node_neighbours_pub_keys-channels client ns l e5 found;
        registered = is_node_registered-lookup db l v (unless_ok (is_node_registered db l) e7);
      })
