-- ===== src/Wire/Codec/RoundTrip.antt =====
-- ldrlib/utils.go: what is written reads back.
use ld_routing.Base.{
  ℕ, ◌+◌, ◌-◌, ◌*◌, ◌%◌, ◌<◌, ◌^◌, ◌≡◌, refl, arith, length, List, ◌++◌, [], ◌∷◌, All,
  length-append, append_assoc,
}
use ld_routing.Base.Int.{ℤ, IsInt64, to_uint64, to_uint64-lt, to_int64, to_int64-to_uint64}
use ld_routing.Base.Run.{ok}
use ld_routing.Base.Bytes.{Bytes, IsBytes, put_le, le, length-put_le, le-put_le}
use ld_routing.Base.Bytes.Cut.{
  slice-append, slice-field, slice-last, joined, joined-append, length-joined,
}
use ld_routing.Wire.Types.{RoutingEntry, IsRoutingEntry, Destination, IsDestination, Route, IsRoute}
use ld_routing.Wire.Codec.{
  serialize_routing_entry, deserialize_routing_entry, serialize_destination,
  deserialize_destination, serialize_block_height, deserialize_block_height, concat_hops,
  serialize_route, read_hops, deserialize_route,
}

-- An int64 as its eight bytes reads back.
int64_field : (x : ℤ) → IsInt64 x → to_int64 (le (put_le 8 (to_uint64 x))) ≡ x
int64_field x h = rw (le-put_le 8 (to_uint64 x) (to_uint64-lt x)) (to_int64-to_uint64 x h)

-- A routing entry of the Go type's sizes that is written to disk reads back as it was.
pub deserialize_routing_entry-serialize_routing_entry :
    (e : RoutingEntry)
    → IsRoutingEntry e
    → deserialize_routing_entry (serialize_routing_entry e) ≡ ok e
unfolding deserialize_routing_entry serialize_routing_entry
deserialize_routing_entry-serialize_routing_entry e v =
    let d = e.destination in
    let n = e.next_hop in
    let c = put_le 8 (to_uint64 e.capacity) in
    let h = put_le 8 e.height in
    let dl = v.destination.len in
    let nl = v.next_hop.len in
    let cl = length-put_le 8 (to_uint64 e.capacity) in
    rw (
      slice-field [] [] 4 d (n ++ (c ++ h)) tt dl,
      slice-field (4 ∷ []) (d ∷ []) 4 n (c ++ h) (dl, tt) nl,
      slice-field (4 ∷ 4 ∷ []) (d ∷ n ∷ []) 8 c h (dl, (nl, tt)) cl,
      slice-last (4 ∷ 4 ∷ 8 ∷ []) (d ∷ n ∷ c ∷ []) 8 h (dl, (nl, (cl, tt)))
          (length-put_le 8 e.height),
      int64_field e.capacity v.capacity,
      le-put_le 8 e.height v.height,
    )

-- A destination of the Go type's sizes that is sent to a peer reads back as it was.
pub deserialize_destination-serialize_destination :
    (d : Destination) → IsDestination d → deserialize_destination (serialize_destination d) ≡ ok d
unfolding deserialize_destination serialize_destination
deserialize_destination-serialize_destination d v =
    let c = put_le 8 (to_uint64 d.capacity) in
    rw (
      slice-field [] [] 4 d.address c tt v.address.len,
      slice-last (4 ∷ []) (d.address ∷ []) 8 c (v.address.len, tt)
          (length-put_le 8 (to_uint64 d.capacity)),
      int64_field d.capacity v.capacity,
    )

-- A height below 2^64 at the front of the address file reads back as it was, whatever follows it.
pub deserialize_block_height-serialize_block_height :
    (h : ℕ) (rest : Bytes)
    → h < 2 ^ 64
    → deserialize_block_height (serialize_block_height h ++ rest) ≡ ok h
unfolding deserialize_block_height serialize_block_height
deserialize_block_height-serialize_block_height h rest v =
    rw (slice-field [] [] 8 (put_le 8 h) rest tt (length-put_le 8 h), le-put_le 8 h v)

pub length-concat_hops :
    (hops : List Bytes) → All (IsBytes 4) hops → length (concat_hops hops) ≡ 4 * length hops
unfolding concat_hops
length-concat_hops [] v = refl
length-concat_hops (hop ∷ hops) v =
    omega (arith, length-append hop (concat_hops hops), length-concat_hops hops v.1, v.0.len)

-- The loop over the hops reads the hops from round `i`, behind `24 + 4 * i` bytes.
read_hops-concat_hops :
    (i : ℕ) (before : Bytes) (hops : List Bytes) (rest : Bytes)
    → length before ≡ 24 + 4 * i
    → All (IsBytes 4) hops
    → read_hops (length hops) i (before ++ (concat_hops hops ++ rest)) ≡ ok hops
unfolding read_hops concat_hops
read_hops-concat_hops i before [] rest e v = refl
read_hops-concat_hops i before (hop ∷ hops) rest e v =
    let size : length hop ≡ 24 + 4 * (i + 1) - (24 + 4 * i) = omega (arith, v.0.len) in
    let front =
      slice-append (24 + 4 * i) (24 + 4 * (i + 1)) before hop (concat_hops hops ++ rest) e size
        (omega arith) in
    let later =
      read_hops-concat_hops (i + 1) (before ++ hop) hops rest
        (omega (arith, length-append before hop, v.0.len)) v.1 in
    rw (
      append_assoc hop (concat_hops hops) rest,
      front,
      ← append_assoc before hop (concat_hops hops ++ rest),
      later,
    )

-- The parts of a serialized route in order.
serialize_route-parts :
    (r : Route) (rest : Bytes)
    → serialize_route r ++ rest
      ≡ joined
          (r.destination
            ∷ r.token
            ∷ put_le 8 (to_uint64 r.capacity)
            ∷ put_le 2 (length r.hops % 2 ^ 16)
            ∷ [])
          (concat_hops r.hops ++ rest)
unfolding serialize_route
serialize_route-parts r rest = simp append_assoc

-- A route of the right sizes with fewer than 2^16 hops reads back as it was, whatever follows it.
pub deserialize_route-serialize_route :
    (r : Route) (rest : Bytes)
    → IsRoute r
    → length r.hops < 2 ^ 16
    → deserialize_route (serialize_route r ++ rest) ≡ ok r
unfolding deserialize_route
deserialize_route-serialize_route r rest v fits =
    let c = put_le 8 (to_uint64 r.capacity) in
    let k = put_le 2 (length r.hops) in
    let hs = concat_hops r.hops ++ rest in
    let dl = v.destination.len in
    let tl = v.token.len in
    let cl = length-put_le 8 (to_uint64 r.capacity) in
    let kl = length-put_le 2 (length r.hops) in
    let all =
      read_hops-concat_hops 0 (joined (r.destination ∷ r.token ∷ c ∷ k ∷ []) []) r.hops rest
        (length-joined (4 ∷ 10 ∷ 8 ∷ 2 ∷ []) (r.destination ∷ r.token ∷ c ∷ k ∷ [])
          (dl, (tl, (cl, (kl, tt)))))
        v.hops in
    let whole = rw (← joined-append (r.destination ∷ r.token ∷ c ∷ k ∷ []) hs) at all in
    let small : length r.hops % 2 ^ 16 ≡ length r.hops = omega arith in
    rw (
      serialize_route-parts r rest,
      small,
      slice-field [] [] 4 r.destination (r.token ++ (c ++ (k ++ hs))) tt dl,
      slice-field (4 ∷ []) (r.destination ∷ []) 10 r.token (c ++ (k ++ hs)) (dl, tt) tl,
      slice-field (4 ∷ 10 ∷ []) (r.destination ∷ r.token ∷ []) 8 c (k ++ hs) (dl, (tl, tt)) cl,
      slice-field (4 ∷ 10 ∷ 8 ∷ []) (r.destination ∷ r.token ∷ c ∷ []) 2 k hs (dl, (tl, (cl, tt)))
          kl,
      int64_field r.capacity v.capacity,
      le-put_le 2 (length r.hops) fits,
      whole,
    )
