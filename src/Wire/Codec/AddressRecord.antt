-- ===== src/Wire/Codec/AddressRecord.antt =====
-- ldrlib/utils.go: serializeAddressInfo and deserializeAddressInfo. The reader's offsets for the
-- transaction id (36 to 68) and for the version (45 to 49) are not the writer's (45 to 77, 77 to 81).
use ld_routing.Base.{
  ℕ, ◌≡◌, none, arith, length, ◌++◌, [], ◌∷◌, take, drop, append_assoc, length-append, length-take,
  length-drop, take-append-drop,
}
use ld_routing.Base.Run.{ok, ◌>>=◌}
use ld_routing.Base.Bytes.{Bytes, slice, put_le, le, length-put_le, le-put_le}
use ld_routing.Base.Bytes.Cut.{slice-append, slice-field}
use ld_routing.Wire.Types.{AddressInfo, IsAddressInfo}
use ld_routing.Wire.Codec.{serialize_address_info, deserialize_address_info}

-- The bytes of an address record.
abbrev written : AddressInfo → Bytes
written i =
    i.address
    ++ (i.node_pub_key
        ++ (put_le 8 i.registration_height ++ (i.registration_tx_id ++ put_le 4 i.version)))

-- What stands at the offsets that are read.
abbrev pub tx_id_as_read : AddressInfo → Bytes
tx_id_as_read i =
    drop 32 i.node_pub_key ++ (put_le 8 i.registration_height ++ take 23 i.registration_tx_id)

abbrev pub as_read : AddressInfo → AddressInfo
as_read i = record i {
  registration_tx_id = tx_id_as_read i;
  version = le (take 4 i.registration_tx_id);
  routing_entry = none;
  peer_conn = none;
}

-- An address record always has the 81 bytes that the writer checks for.
pub serialize_address_info-ok :
    (i : AddressInfo) → IsAddressInfo i → serialize_address_info i ≡ ok (written i)
unfolding serialize_address_info
serialize_address_info-ok i v =
    let h = put_le 8 i.registration_height in
    let w = put_le 4 i.version in
    let size : length (written i) ≡ 81 = omega (
      arith,
      v.address.len,
      v.node_pub_key.len,
      v.registration_tx_id.len,
      length-append i.address (i.node_pub_key ++ (h ++ (i.registration_tx_id ++ w))),
      length-append i.node_pub_key (h ++ (i.registration_tx_id ++ w)),
      length-append h (i.registration_tx_id ++ w),
      length-append i.registration_tx_id w,
      length-put_le 8 i.registration_height,
      length-put_le 4 i.version,
    ) in
    rw size

cut_again : (n : ℕ) (xs ys : Bytes) → take n xs ++ (drop n xs ++ ys) ≡ xs ++ ys
cut_again n xs ys = rw (← append_assoc (take n xs) (drop n xs) ys, take-append-drop n xs)

read_tx_id : (i : AddressInfo) → IsAddressInfo i → slice 36 68 (written i) ≡ ok (tx_id_as_read i)
read_tx_id i v =
    let k = i.node_pub_key in
    let t = i.registration_tx_id in
    let h = put_le 8 i.registration_height in
    let w = put_le 4 i.version in
    let cut : (i.address ++ take 32 k) ++ ((drop 32 k ++ (h ++ take 23 t)) ++ (drop 23 t ++ w))
        ≡ written i =
      simp (append_assoc, cut_again) in
    rw (← cut) (
      slice-append 36 68 (i.address ++ take 32 k) (drop 32 k ++ (h ++ take 23 t)) (drop 23 t ++ w)
        (omega (
          arith,
          length-append i.address (take 32 k),
          length-take 32 k (omega (arith, v.node_pub_key.len)),
          v.address.len,
        ))
        (omega (
          arith,
          length-append (drop 32 k) (h ++ take 23 t),
          length-append h (take 23 t),
          length-drop 32 k,
          length-take 23 t (omega (arith, v.registration_tx_id.len)),
          v.node_pub_key.len,
          length-put_le 8 i.registration_height,
        ))
        (omega arith))

read_version :
    (i : AddressInfo) → IsAddressInfo i → slice 45 49 (written i) ≡ ok (take 4 i.registration_tx_id)
read_version i v =
    let k = i.node_pub_key in
    let t = i.registration_tx_id in
    let h = put_le 8 i.registration_height in
    let w = put_le 4 i.version in
    rw (← cut_again 4 t w) (
      slice-field (4 ∷ 33 ∷ 8 ∷ []) (i.address ∷ k ∷ h ∷ []) 4 (take 4 t) (drop 4 t ++ w)
        (v.address.len, (v.node_pub_key.len, (length-put_le 8 i.registration_height, tt)))
        (length-take 4 t (omega (arith, v.registration_tx_id.len))))

-- An address record of the Go type's sizes that is written and read again keeps its address, its key
-- and its height. The transaction id becomes the last byte of the key, the height and 23 bytes of the
-- id; the version becomes the first four bytes of the id.
pub deserialize_address_info-serialize_address_info :
    (i : AddressInfo)
    → IsAddressInfo i
    → (serialize_address_info i >>= deserialize_address_info) ≡ ok (as_read i)
unfolding deserialize_address_info
deserialize_address_info-serialize_address_info i v =
    let k = i.node_pub_key in
    let h = put_le 8 i.registration_height in
    let rest = i.registration_tx_id ++ put_le 4 i.version in
    let al = v.address.len in
    let kl = v.node_pub_key.len in
    rw (
      serialize_address_info-ok i v,
      read_tx_id i v,
      read_version i v,
      slice-field [] [] 4 i.address (k ++ (h ++ rest)) tt al,
      slice-field (4 ∷ []) (i.address ∷ []) 33 k (h ++ rest) (al, tt) kl,
      slice-field (4 ∷ 33 ∷ []) (i.address ∷ k ∷ []) 8 h rest (al, (kl, tt))
          (length-put_le 8 i.registration_height),
      le-put_le 8 i.registration_height v.registration_height,
    )
