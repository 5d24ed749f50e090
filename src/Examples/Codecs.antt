-- ===== src/Examples/Codecs.antt =====
-- The formats of ldrlib/utils.go at concrete values.
use ld_routing.Base.{◌≡◌, refl, [], ◌∷◌, ◌++◌, none, arith, replicate}
use ld_routing.Base.Int.{pos, negsuc}
use ld_routing.Base.Run.{ok, ◌>>=◌}
use ld_routing.Base.Bytes.{Bytes, IsBytes}
use ld_routing.Wire.Types.{
  AddressInfo, IsAddressInfo, RoutingEntry, IsRoutingEntry, Destination, IsDestination, Route,
  IsRoute,
}
use ld_routing.Wire.Hex.{
  pub_key_array_to_string, pub_key_string_to_array, pub_key_string_to_array-pub_key_array_to_string,
}
use ld_routing.Wire.Codec.{
  serialize_routing_entry, deserialize_routing_entry, serialize_route, deserialize_route,
  serialize_address_info, deserialize_address_info,
}
use ld_routing.Wire.Codec.RoundTrip.{
  deserialize_routing_entry-serialize_routing_entry, deserialize_route-serialize_route,
}
use ld_routing.Wire.Codec.AddressRecord.{as_read, deserialize_address_info-serialize_address_info}

abbrev address_ : Bytes
address_ = 10 ∷ 0 ∷ 255 ∷ 1 ∷ []

address-IsBytes : IsBytes 4 address_
address-IsBytes = record {
  len = refl;
  each = (omega arith, (omega arith, (omega arith, (omega arith, tt))));
}

abbrev key_ : Bytes
key_ = replicate 33 2

key-IsBytes : IsBytes 33 key_
key-IsBytes = record { len = refl; each = ground arith }

abbrev tx_ : Bytes
tx_ = replicate 32 7

tx-IsBytes : IsBytes 32 tx_
tx-IsBytes = record { len = refl; each = ground arith }

abbrev entry_ : RoutingEntry
entry_ = record {
  destination = address_;
  next_hop = address_;
  capacity = negsuc 4;
  height = 600000;
}

entry-IsRoutingEntry : IsRoutingEntry entry_
entry-IsRoutingEntry = record {
  destination = address-IsBytes;
  next_hop = address-IsBytes;
  capacity = omega arith;
  height = omega arith;
}

deserialize_routing_entry-serialize_routing_entry_example :
    deserialize_routing_entry (serialize_routing_entry entry_) ≡ ok entry_
deserialize_routing_entry-serialize_routing_entry_example =
    deserialize_routing_entry-serialize_routing_entry entry_ entry-IsRoutingEntry

abbrev destination_ : Destination
destination_ = record { address = address_; capacity = negsuc 0 }

sample-IsDestination : IsDestination destination_
sample-IsDestination = record { address = address-IsBytes; capacity = omega arith }

abbrev route_ : Route
route_ = record {
  destination = address_;
  capacity = pos 1000;
  hops = address_ ∷ (0 ∷ 0 ∷ 0 ∷ 9 ∷ []) ∷ [];
  token = replicate 10 3;
}

sample-IsRoute : IsRoute route_
sample-IsRoute = record {
  destination = address-IsBytes;
  capacity = omega arith;
  hops = (address-IsBytes, (record { len = refl; each = ground arith }, tt));
  token = record { len = refl; each = ground arith };
}

deserialize_route-serialize_route_example :
    deserialize_route (serialize_route route_ ++ (5 ∷ [])) ≡ ok route_
deserialize_route-serialize_route_example =
    deserialize_route-serialize_route route_ (5 ∷ []) sample-IsRoute (omega arith)

abbrev info_ : AddressInfo
info_ = record {
  address = address_;
  node_pub_key = key_;
  registration_height = 600000;
  registration_tx_id = tx_;
  version = 1;
  routing_entry = none;
  peer_conn = none;
}

info-IsAddressInfo : IsAddressInfo info_
info-IsAddressInfo = record {
  address = address-IsBytes;
  node_pub_key = key-IsBytes;
  registration_height = omega arith;
  registration_tx_id = tx-IsBytes;
  version = omega arith;
}

deserialize_address_info-serialize_address_info_example :
    (serialize_address_info info_ >>= deserialize_address_info) ≡ ok (as_read info_)
deserialize_address_info-serialize_address_info_example =
    deserialize_address_info-serialize_address_info info_ info-IsAddressInfo

pub_key_string_to_array-pub_key_array_to_string_example :
    pub_key_string_to_array (pub_key_array_to_string key_) ≡ ok key_
pub_key_string_to_array-pub_key_array_to_string_example =
    pub_key_string_to_array-pub_key_array_to_string key_ key-IsBytes
