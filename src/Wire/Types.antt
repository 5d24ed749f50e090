-- ===== src/Wire/Types.antt =====
-- The values that the protocol stores and sends: addressInfo and routingEntry of ldrlib/db.go,
-- destination of ldrlib/message.go and Route of ldrlib/routing.go. A pointer to a routing entry or
-- to a connection is the number under which it was allocated.
use ld_routing.Base.{ℕ, ◌<◌, ◌^◌, List, All, Option}
use ld_routing.Base.Int.{ℤ, IsInt64}
use ld_routing.Base.Bytes.{Bytes, IsBytes}

abbrev pub Ref : Type 0
Ref = ℕ

pub record AddressInfo : Type 0 where
  pub address : Bytes
  pub node_pub_key : Bytes
  pub registration_height : ℕ
  pub registration_tx_id : Bytes
  pub version : ℕ
  pub routing_entry : Option Ref
  pub peer_conn : Option Ref

pub record RoutingEntry : Type 0 where
  pub destination : Bytes
  pub next_hop : Bytes
  pub capacity : ℤ
  pub height : ℕ

pub record Destination : Type 0 where
  pub address : Bytes
  pub capacity : ℤ

-- `token` is a Go string: its bytes.
pub record Route : Type 0 where
  pub destination : Bytes
  pub capacity : ℤ
  pub hops : List Bytes
  pub token : Bytes

-- What the Go types guarantee of the values.
pub record IsAddressInfo (i : AddressInfo) : Type 0 where
  pub address : IsBytes 4 i.address
  pub node_pub_key : IsBytes 33 i.node_pub_key
  pub registration_height : i.registration_height < 2 ^ 64
  pub registration_tx_id : IsBytes 32 i.registration_tx_id
  pub version : i.version < 2 ^ 32

pub record IsRoutingEntry (e : RoutingEntry) : Type 0 where
  pub destination : IsBytes 4 e.destination
  pub next_hop : IsBytes 4 e.next_hop
  pub capacity : IsInt64 e.capacity
  pub height : e.height < 2 ^ 64

pub record IsDestination (d : Destination) : Type 0 where
  pub address : IsBytes 4 d.address
  pub capacity : IsInt64 d.capacity

-- A route as createRoute and the hops of the code make it.
pub record IsRoute (r : Route) : Type 0 where
  pub destination : IsBytes 4 r.destination
  pub capacity : IsInt64 r.capacity
  pub hops : All (IsBytes 4) r.hops
  pub token : IsBytes 10 r.token
