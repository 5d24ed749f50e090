-- ===== src/Message/Untrusted.antt =====
-- A table response is whatever bytes a peer sends: processTableResponse of ldrlib/message.go.
use ld_routing.Base.{
  ℕ, zero, suc, ◌+◌, ◌*◌, ◌≡◌, sym, subst, ◌∙◌, ap, inl, inr, Bool-cases, leb, ◌==◌, length, leb→le,
  length-take,
}
use ld_routing.Base.Run.{ok, >>=-eq-ok, require, invalid_response_size, invalid_response_type}
use ld_routing.Base.Bytes.{Bytes, slice, be}
use ld_routing.Wire.Types.{Destination}
use ld_routing.Wire.Codec.{deserialize_destination}
use ld_routing.Db.{Db}
use ld_routing.Db.Lnd.{Lnd}
use ld_routing.Db.Routing.{add_new_destination_to_db}
use ld_routing.Db.Valid.{IsValid}
use ld_routing.Db.Valid.Destination.{add_new_destination_to_db-IsValid}
use ld_routing.Message.{destination_size, add_destinations, process_table_response}

ok-injective : {A : Type 0} {a b : A} → ok a ≡ ok b → a ≡ b
ok-injective h = cc

length-slice : (bs cut : Bytes) → slice 0 4 bs ≡ ok cut → length cut ≡ 4
unfolding slice
length-slice bs cut h = elim (Bool-cases (leb 4 (length bs))) [
  | inl fits ↦
      sym (ap length (ok-injective (rw fits at h))) ∙ length-take 4 bs (leb→le 4 (length bs) fits)
  | inr short ↦ absurd (cc (rw short at h))
]

length-address :
    (bytes : Bytes) (d : Destination) → deserialize_destination bytes ≡ ok d → length d.address ≡ 4
unfolding deserialize_destination
length-address bytes d h =
    let (a, e, h1) = >>=-eq-ok (slice 0 4 bytes) _ h in
    let (c, e2, h2) = >>=-eq-ok (slice 4 12 bytes) _ h1 in
    ap (λ (x : Destination). length x.address) (sym (ok-injective h2)) ∙ length-slice bytes a e

added-IsValid :
    (rounds n : ℕ) (response key : Bytes) (ln : Lnd) (db db' : Db)
    → IsValid db
    → add_destinations rounds n response key ln db ≡ ok db'
    → IsValid db'
unfolding add_destinations
added-IsValid zero n response key ln db db' v h = subst IsValid (ok-injective h) v
added-IsValid (suc rounds) n response key ln db db' v h =
    let (bytes, e, h1) =
      >>=-eq-ok (slice (4 + n * destination_size) (4 + (n + 1) * destination_size) response) _ h in
    let (d, e2, h2) = >>=-eq-ok (deserialize_destination bytes) _ h1 in
    let (next, e3, h3) = >>=-eq-ok (add_new_destination_to_db db d key ln) _ h2 in
    added-IsValid rounds (n + 1) response key ln next db'
      (add_new_destination_to_db-IsValid db d key ln next v (length-address bytes d e2) e3) h3

-- Whatever bytes a peer sends as a table response, a database that was valid before is valid after
-- the response was processed.
pub process_table_response-IsValid :
    (response : Bytes) (db : Db) (key : Bytes) (ln : Lnd) (db' : Db)
    → IsValid db
    → process_table_response response db key ln ≡ ok db'
    → IsValid db'
unfolding process_table_response
process_table_response-IsValid response db key ln db' v h =
    let (_, e, h1) = >>=-eq-ok (require (leb 4 (length response)) invalid_response_size) _ h in
    let (t, e2, h2) = >>=-eq-ok (slice 0 2 response) _ h1 in
    let (_, e3, h3) = >>=-eq-ok (require (be t == 1) invalid_response_type) _ h2 in
    let (count, e4, h4) = >>=-eq-ok (slice 2 4 response) _ h3 in
    added-IsValid (be count) 0 response key ln db db' v h4
