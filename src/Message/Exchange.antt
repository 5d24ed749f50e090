-- ===== src/Message/Exchange.antt =====
-- ldrlib/message.go: a message is made by one peer and processed by another.
use mathlib.Core.Path.{fun_ext}
use ld_routing.Base.{
  ℕ, ◌+◌, ◌*◌, ◌%◌, ◌<◌, ◌^◌, ◌≡◌, refl, ap, true, List, [], ◌∷◌, ◌++◌, leb, length, All, arith,
  length-append, append_assoc, append-nil,
}
use ld_routing.Base.Int.{to_uint64}
use ld_routing.Base.Run.{Run, ok, ◌>>=◌, for_each}
use ld_routing.Base.Bytes.{
  Bytes, put_le, length-put_le, put_be, length-put_be, be-put_be_two, be-put_be_eight,
}
use ld_routing.Base.Bytes.Cut.{slice-append, slice-field, slice-last}
use ld_routing.Wire.Types.{Ref, RoutingEntry, Destination, IsDestination, Route, IsRoute}
use ld_routing.Wire.Codec.{
  routing_entry_to_destination, serialize_destination, concat_hops, serialize_route,
  deserialize_route,
}
use ld_routing.Wire.Codec.RoundTrip.{
  deserialize_destination-serialize_destination, deserialize_route-serialize_route,
  length-concat_hops,
}
use ld_routing.Stack.Laws.{recent, IsFalling, peek_from_block-recent}
use ld_routing.Db.{Db}
use ld_routing.Db.Lnd.{Lnd}
use ld_routing.Db.Routing.{get_last_routing_entries, add_new_destination_to_db}
use ld_routing.Message.{
  create_forward_route_message, process_forward_route_message, create_table_request,
  process_table_request, serialize_destinations, add_destinations, process_table_response,
}

-- The destinations of the entries on a peer's stack that are as recent as a block.
abbrev pub destinations : (Ref → RoutingEntry) → List Ref → List Destination
destinations cells [] = []
destinations cells (r ∷ rs) = routing_entry_to_destination (cells r) ∷ destinations cells rs

length-serialize_destination :
    (d : Destination) → IsDestination d → length (serialize_destination d) ≡ 12
unfolding serialize_destination
length-serialize_destination d v = omega (
  arith,
  length-append d.address (put_le 8 (to_uint64 d.capacity)),
  length-put_le 8 (to_uint64 d.capacity),
  v.address.len,
)

-- The loop over a response reads the destinations from round `n`, behind `4 + 12 * n` bytes, and
-- adds each in turn.
add_destinations-serialize_destinations :
    (n : ℕ) (before : Bytes) (cells : Ref → RoutingEntry) (rs : List Ref) (key : Bytes) (ln : Lnd)
    (db : Db)
    → length before ≡ 4 + n * 12
    → All (λ r. IsDestination (routing_entry_to_destination (cells r))) rs
    → add_destinations (length rs) n (before ++ serialize_destinations cells rs) key ln db
      ≡ for_each (λ d dest. add_new_destination_to_db d dest key ln) db (destinations cells rs)
unfolding add_destinations serialize_destinations for_each
add_destinations-serialize_destinations n before cells [] key ln db e v = refl
add_destinations-serialize_destinations n before cells (r ∷ rs) key ln db e v =
    let d = routing_entry_to_destination (cells r) in
    let b = serialize_destination d in
    let size = length-serialize_destination d v.0 in
    let front =
      slice-append (4 + n * 12) (4 + (n + 1) * 12) before b (serialize_destinations cells rs) e
        (omega arith) (omega arith) in
    let assoc = append_assoc before b (serialize_destinations cells rs) in
    let shifted : length (before ++ b) ≡ 4 + (n + 1) * 12 = omega (arith, length-append before b) in
    let later = λ (db' : Db).
      add_destinations-serialize_destinations (n + 1) (before ++ b) cells rs key ln db' shifted
        v.1 in
    rw (front, deserialize_destination-serialize_destination d v.0)
      (ap (λ (f : Db → Run Db). add_new_destination_to_db db d key ln >>= f)
        (fun_ext (λ db'. rw assoc at later db')))

create_table_request-ok : (h : ℕ) → create_table_request h ≡ ok (put_be 2 0 ++ put_be 8 h)
unfolding create_table_request
create_table_request-ok h = let late : leb 0 h ≡ true = ground arith in rw late refl

-- The answer to a request: the type, the number of entries and the destinations.
process_table_request-create_table_request :
    (db : Db) (starting_block : ℕ)
    → starting_block < 2 ^ 64
    → IsFalling db.cells db.routing_entries_stack
    → (create_table_request starting_block >>= process_table_request db)
      ≡ ok (
          put_be 2 1
          ++ (put_be 2 (length (recent db.cells starting_block db.routing_entries_stack) % 2 ^ 16)
              ++ serialize_destinations db.cells
                  (recent db.cells starting_block db.routing_entries_stack)))
unfolding process_table_request get_last_routing_entries
process_table_request-create_table_request db h fits falling =
    let sized : length (put_be 2 0 ++ put_be 8 h) ≡ 10 =
      omega
        (arith, length-append (put_be 2 0) (put_be 8 h), length-put_be 2 0, length-put_be 8 h) in
    let late : leb 0 h ≡ true = ground arith in
    rw
      (
        create_table_request-ok h,
        sized,
        slice-field [] [] 2 (put_be 2 0) (put_be 8 h) tt (length-put_be 2 0),
        slice-last (2 ∷ []) (put_be 2 0 ∷ []) 8 (put_be 8 h) (length-put_be 2 0, tt)
            (length-put_be 8 h),
        be-put_be_two 0 (omega arith),
        be-put_be_eight h fits,
        late,
        peek_from_block-recent db.cells h db.routing_entries_stack falling,
      )
      refl

-- One peer asks another for its table from a block below 2^64, and processes the answer: each
-- destination of the other's recent entries is added in turn, where the other's stack has falling
-- heights, and fewer than 2^16 recent entries with addresses of four bytes and int64 capacities.
pub table_exchange :
    (server client : Db) (starting_block : ℕ) (key : Bytes) (ln : Lnd)
    → starting_block < 2 ^ 64
    → IsFalling server.cells server.routing_entries_stack
    → All
        (λ r. IsDestination (routing_entry_to_destination (server.cells r)))
        (recent server.cells starting_block server.routing_entries_stack)
    → length (recent server.cells starting_block server.routing_entries_stack) < 2 ^ 16
    → (create_table_request starting_block >>= process_table_request server >>= λ response.
        process_table_response response client key ln)
      ≡ for_each
          (λ db dest. add_new_destination_to_db db dest key ln)
          client
          (destinations server.cells
            (recent server.cells starting_block server.routing_entries_stack))
unfolding process_table_response
table_exchange server client h key ln fits falling valid few =
    let rs = recent server.cells h server.routing_entries_stack in
    let small : length rs % 2 ^ 16 ≡ length rs = omega arith in
    let ds = serialize_destinations server.cells rs in
    let count = put_be 2 (length rs) in
    let long : leb 4 (length (put_be 2 1 ++ (count ++ ds))) ≡ true = ground (
      arith,
      length-append (put_be 2 1) (count ++ ds),
      length-append count ds,
      length-put_be 2 1,
      length-put_be 2 (length rs),
    ) in
    let read =
      add_destinations-serialize_destinations 0 (put_be 2 1 ++ count) server.cells rs key ln client
        (omega
          (arith, length-append (put_be 2 1) count, length-put_be 2 1, length-put_be 2 (length rs)))
        valid in
    rw
      (
        process_table_request-create_table_request server h fits falling,
        small,
        long,
        slice-field [] [] 2 (put_be 2 1) (count ++ ds) tt (length-put_be 2 1),
        slice-field (2 ∷ []) (put_be 2 1 ∷ []) 2 count ds (length-put_be 2 1, tt)
            (length-put_be 2 (length rs)),
        be-put_be_two 1 (omega arith),
        be-put_be_two (length rs) few,
      )
      (rw append_assoc at read)

-- The size of a forward message.
pub length-create_forward_route_message :
    (r : Route) → IsRoute r → length (create_forward_route_message r) ≡ 26 + 4 * length r.hops
unfolding create_forward_route_message serialize_route
length-create_forward_route_message r v =
    let c = put_le 8 (to_uint64 r.capacity) in
    let k = put_le 2 (length r.hops % 2 ^ 16) in
    omega (
      arith,
      length-append (put_be 2 2) (r.destination ++ (r.token ++ (c ++ (k ++ concat_hops r.hops)))),
      length-append r.destination (r.token ++ (c ++ (k ++ concat_hops r.hops))),
      length-append r.token (c ++ (k ++ concat_hops r.hops)),
      length-append c (k ++ concat_hops r.hops),
      length-append k (concat_hops r.hops),
      length-concat_hops r.hops v.hops,
      length-put_be 2 2,
      v.destination.len,
      v.token.len,
      length-put_le 8 (to_uint64 r.capacity),
      length-put_le 2 (length r.hops % 2 ^ 16),
    )

-- A forward message reads back as the route that was put into it, for a route of the right sizes
-- with fewer than 2^16 hops.
pub process_forward_route_message-create_forward_route_message :
    (r : Route)
    → IsRoute r
    → length r.hops < 2 ^ 16
    → process_forward_route_message (create_forward_route_message r) ≡ ok r
unfolding process_forward_route_message create_forward_route_message
process_forward_route_message-create_forward_route_message r v fits =
    let ser = serialize_route r in
    let size = length-append (put_be 2 2) ser in
    let long : leb 26 (length (put_be 2 2 ++ ser)) ≡ true =
      ground (arith, length-create_forward_route_message r v) in
    let end : length (put_be 2 2 ++ ser) ≡ 2 + length ser =
      omega (arith, size, length-put_be 2 2) in
    let back : deserialize_route ser ≡ ok r =
      rw append-nil at (deserialize_route-serialize_route r [] v fits) in
    rw (
      long,
      slice-field [] [] 2 (put_be 2 2) ser tt (length-put_be 2 2),
      be-put_be_two 2 (omega arith),
      end,
      slice-last (2 ∷ []) (put_be 2 2 ∷ []) (length ser) ser (length-put_be 2 2, tt) refl,
      back,
    )
