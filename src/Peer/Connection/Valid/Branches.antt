-- ===== src/Peer/Connection/Valid/Branches.antt =====
-- handlePeerConnection of ldrlib/networking.go: each message and the invariant of the database.
use ld_routing.Base.{◌≡◌, sym, subst, Bool, true, false, inl, inr, ◌==◌, if◌then◌else◌}
use ld_routing.Base.Run.{ok, >>=-eq-ok, Run-cases}
use ld_routing.Base.Bytes.{Bytes, slice, be, bytes_eq}
use ld_routing.Wire.Types.{Route}
use ld_routing.Db.{get_local_address}
use ld_routing.Db.Lnd.{Lnd}
use ld_routing.Db.Valid.{IsValid}
use ld_routing.Message.{
  table_request_type, table_response_type, forward_route_type, process_forward_route_message,
  process_table_request, process_table_response,
}
use ld_routing.Message.Untrusted.{process_table_response-IsValid}
use ld_routing.Peer.Cipher.{Aes}
use ld_routing.Peer.Connection.{Node}
use ld_routing.Peer.Connection.Dispatch.{
  Handled, handled, stops, handle_table_request, handle_table_response, answer_route, pass_route_on,
  handle_forward_route, handle_message,
}
use ld_routing.Peer.Connection.Valid.{pass_route_on-db, answer_route-IsValid}

ok-injective : {A : Type 0} {a b : A} → ok a ≡ ok b → a ≡ b
ok-injective h = cc

-- The database that a message leaves is valid.
abbrev pub HandledIsValid : Handled → Type 0
HandledIsValid (handled response node) = IsValid node.db
HandledIsValid stops = Unit

handle_table_request-IsValid :
    (node : Node) (message : Bytes) (result : Handled)
    → handle_table_request node message ≡ ok result
    → IsValid node.db
    → HandledIsValid result
unfolding handle_table_request
handle_table_request-IsValid node message result e v =
    elim (Run-cases (process_table_request node.db message)) [
      | inl (response, h) ↦
          subst HandledIsValid (ok-injective (rw (h, handle_table_request) at e)) v
      | inr (inl (x, h)) ↦
          subst HandledIsValid (ok-injective (rw (h, handle_table_request) at e)) tt
      | inr (inr (inl h)) ↦ absurd (cc (rw (h, handle_table_request) at e))
      | inr (inr (inr h)) ↦ absurd (cc (rw (h, handle_table_request) at e))
    ]

handle_table_response-IsValid :
    (ln : Lnd) (key : Bytes) (node : Node) (message : Bytes) (result : Handled)
    → handle_table_response ln key node message ≡ ok result
    → IsValid node.db
    → HandledIsValid result
unfolding handle_table_response
handle_table_response-IsValid ln key node message result e v =
    elim (Run-cases (process_table_response message node.db key ln)) [
      | inl (db, h) ↦
          subst HandledIsValid (ok-injective (rw (h, handle_table_response) at e))
            (process_table_response-IsValid message node.db key ln db v h)
      | inr (inl (x, h)) ↦
          subst HandledIsValid (ok-injective (rw (h, handle_table_response) at e)) tt
      | inr (inr (inl h)) ↦ absurd (cc (rw (h, handle_table_response) at e))
      | inr (inr (inr h)) ↦ absurd (cc (rw (h, handle_table_response) at e))
    ]

-- The two ways that a route can go.
routed-IsValid :
    (aes : Aes) (ln : Lnd) (route : Route) (node node' : Node) (own : Bool)
    → (if own then answer_route route node else pass_route_on aes ln route node) ≡ ok node'
    → IsValid node.db
    → IsValid node'.db
routed-IsValid aes ln route node node' true e v = answer_route-IsValid route node node' e v
routed-IsValid aes ln route node node' false e v =
    subst IsValid (sym (pass_route_on-db aes ln route node node' e)) v

handle_forward_route-IsValid :
    (aes : Aes) (ln : Lnd) (node : Node) (message : Bytes) (result : Handled)
    → handle_forward_route aes ln node message ≡ ok result
    → IsValid node.db
    → HandledIsValid result
unfolding handle_forward_route
handle_forward_route-IsValid aes ln node message result e v =
    elim (Run-cases (process_forward_route_message message)) [
      | inl (route, h) ↦
          let own = bytes_eq route.destination (get_local_address node.db) in
          let (node', e1, e2) =
            >>=-eq-ok (if own then answer_route route node else pass_route_on aes ln route node) _
              (rw (h, handle_forward_route) at e) in
          subst HandledIsValid (ok-injective e2) (routed-IsValid aes ln route node node' own e1 v)
      | inr (inl (x, h)) ↦ absurd (cc (rw (h, handle_forward_route) at e))
      | inr (inr (inl h)) ↦ absurd (cc (rw (h, handle_forward_route) at e))
      | inr (inr (inr h)) ↦ absurd (cc (rw (h, handle_forward_route) at e))
    ]

-- The branches on the type of a message.
branch-IsValid :
    (aes : Aes) (ln : Lnd) (key : Bytes) (node : Node) (message : Bytes) (result : Handled)
    (request response forward : Bool)
    → (if request
        then handle_table_request node message
        else if response
        then handle_table_response ln key node message
        else if forward
        then handle_forward_route aes ln node message
        else ok stops)
      ≡ ok result
    → IsValid node.db
    → HandledIsValid result
branch-IsValid aes ln key node message result true response forward e v =
    handle_table_request-IsValid node message result e v
branch-IsValid aes ln key node message result false true forward e v =
    handle_table_response-IsValid ln key node message result e v
branch-IsValid aes ln key node message result false false true e v =
    handle_forward_route-IsValid aes ln node message result e v
branch-IsValid aes ln key node message result false false false e v =
    subst HandledIsValid (ok-injective e) tt

pub handle_message-IsValid :
    (aes : Aes) (ln : Lnd) (key : Bytes) (node : Node) (message : Bytes) (result : Handled)
    → handle_message aes ln key node message ≡ ok result
    → IsValid node.db
    → HandledIsValid result
unfolding handle_message
handle_message-IsValid aes ln key node message result e v =
    let (t, _, e1) = >>=-eq-ok (slice 0 2 message) _ e in
    branch-IsValid aes ln key node message result (be t == table_request_type)
      (be t == table_response_type) (be t == forward_route_type) e1 v
