-- ===== src/Wire/Codec.antt =====
-- ldrlib/utils.go: the conversions between values and bytes. A buffer is written in the order of
-- the appends; a slice expression that is out of range panics.
pub mod AddressRecord
pub mod RoundTrip
use ld_routing.Base.{
  ℕ, zero, suc, ◌+◌, ◌*◌, ◌%◌, ◌^◌, none, List, [], ◌∷◌, ◌++◌, ◌==◌, if◌then◌else◌, length,
}
use ld_routing.Base.Int.{to_uint64, to_int64}
use ld_routing.Base.Run.{Run, ok, fatal, ◌>>=◌}
use ld_routing.Base.Bytes.{Bytes, slice, put_le, le}
use ld_routing.Wire.Types.{AddressInfo, RoutingEntry, Destination, Route}

unfoldable pub routing_entry_to_destination : RoutingEntry → Destination
routing_entry_to_destination entry = record {
  address = entry.destination;
  capacity = entry.capacity;
}

unfoldable pub destination_to_routing_entry : Destination → ℕ → Bytes → RoutingEntry
destination_to_routing_entry dest current_block next_hop_neighbour = record {
  destination = dest.address;
  next_hop = next_hop_neighbour;
  capacity = dest.capacity;
  height = current_block;
}

unfoldable pub serialize_routing_entry : RoutingEntry → Bytes
serialize_routing_entry entry =
    entry.destination
    ++ (entry.next_hop ++ (put_le 8 (to_uint64 entry.capacity) ++ put_le 8 entry.height))

unfoldable pub deserialize_routing_entry : Bytes → Run RoutingEntry
deserialize_routing_entry bytes = do
  destination ← slice 0 4 bytes
  next_hop ← slice 4 8 bytes
  capacity ← slice 8 16 bytes
  height ← slice 16 24 bytes
  ok (record {
    destination = destination;
    next_hop = next_hop;
    capacity = to_int64 (le capacity);
    height = le height;
  })

unfoldable pub serialize_destination : Destination → Bytes
serialize_destination dest = dest.address ++ put_le 8 (to_uint64 dest.capacity)

unfoldable pub deserialize_destination : Bytes → Run Destination
deserialize_destination bytes = do
  address ← slice 0 4 bytes
  capacity ← slice 4 12 bytes
  ok (record { address = address; capacity = to_int64 (le capacity) })

unfoldable pub serialize_block_height : ℕ → Bytes
serialize_block_height block_height = put_le 8 block_height

-- Uint64 reads the first eight bytes, and panics on fewer.
unfoldable pub deserialize_block_height : Bytes → Run ℕ
deserialize_block_height bytes = do height ← slice 0 8 bytes; ok (le height)

abbrev pub address_info_serialized_size : ℕ
address_info_serialized_size = 81

unfoldable pub serialize_address_info : AddressInfo → Run Bytes
serialize_address_info info =
    let buf =
      info.address
      ++ (info.node_pub_key
          ++ (put_le 8 info.registration_height
              ++ (info.registration_tx_id ++ put_le 4 info.version))) in
    if length buf == address_info_serialized_size then ok buf else fatal

-- The offsets of the transaction id and of the version are those of the source.
unfoldable pub deserialize_address_info : Bytes → Run AddressInfo
deserialize_address_info bytes = do
  address ← slice 0 4 bytes
  node_pub_key ← slice 4 37 bytes
  registration_height ← slice 37 45 bytes
  registration_tx_id ← slice 36 68 bytes
  version ← slice 45 49 bytes
  ok (record {
    address = address;
    node_pub_key = node_pub_key;
    registration_height = le registration_height;
    registration_tx_id = registration_tx_id;
    version = le version;
    routing_entry = none;
    peer_conn = none;
  })

unfoldable pub concat_hops : List Bytes → Bytes
concat_hops [] = []
concat_hops (hop ∷ hops) = hop ++ concat_hops hops

-- The number of hops is cut to 16 bits.
unfoldable pub serialize_route : Route → Bytes
serialize_route route =
    route.destination
    ++ (route.token
        ++ (put_le 8 (to_uint64 route.capacity)
            ++ (put_le 2 (length route.hops % 2 ^ 16) ++ concat_hops route.hops)))

-- The loop over the hops, `n` rounds from round `i`.
read_hops : ℕ → ℕ → Bytes → Run (List Bytes)
read_hops zero i bytes = ok []
read_hops (suc n) i bytes = do
  hop ← slice (24 + 4 * i) (24 + 4 * (i + 1)) bytes
  hops ← read_hops n (i + 1) bytes
  ok (hop ∷ hops)

unfoldable pub deserialize_route : Bytes → Run Route
unfolding read_hops
deserialize_route bytes = do
  destination ← slice 0 4 bytes
  token ← slice 4 14 bytes
  capacity ← slice 14 22 bytes
  number_hops ← slice 22 24 bytes
  hops ← read_hops (le number_hops) 0 bytes
  ok (record {
    destination = destination;
    capacity = to_int64 (le capacity);
    hops = hops;
    token = token;
  })
