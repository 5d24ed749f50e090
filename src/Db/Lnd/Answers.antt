-- ===== src/Db/Lnd/Answers.antt =====
-- ldrlib/ln.go: what the calls that return have been answered by the lightning node.
use ld_routing.Base.{◌≡◌, ◌∙◌, ap, inl, inr, Bool, none, some, Option, List, [], ◌∷◌, SomeOf}
use ld_routing.Base.Run.{ok, >>=-eq-ok, or_fatal}
use ld_routing.Base.Bytes.{Bytes}
use ld_routing.Wire.Hex.{pub_key_string_to_array}
use ld_routing.Db.Lnd.{
  Channel, Lnd, keys_of, remote_ends, verify_message, get_local_node_neighbours_pub_keys,
}

ok-injective : {A : Type 0} {a b : A} → ok a ≡ ok b → a ≡ b
ok-injective h = cc

or_fatal-ok : {A : Type 0} (o : Option A) (a : A) → or_fatal o ≡ ok a → o ≡ some a
or_fatal-ok none a h = cc
or_fatal-ok (some x) a h = ap some (ok-injective h)

pub verify_message-answer :
    (ln : Lnd) (message signature key : Bytes) (valid : Bool)
    → verify_message ln message signature ≡ ok (valid, key)
    → (pubkey : Bytes) × (ln.verify_message message (ln.zbase32_encode signature)
        ≡ some (valid, pubkey))
      × (pub_key_string_to_array pubkey ≡ ok key)
unfolding verify_message
verify_message-answer ln message signature key valid h =
    let ((b, pubkey), e, h1) =
      >>=-eq-ok (or_fatal (ln.verify_message message (ln.zbase32_encode signature))) _ h in
    let (k, e2, h2) = >>=-eq-ok (pub_key_string_to_array pubkey) _ h1 in
    let same : (b, k) ≡ (valid, key) = ok-injective h2 in
    (
      pubkey,
      or_fatal-ok (ln.verify_message message (ln.zbase32_encode signature)) (b, pubkey) e
          ∙ ap (λ (p : Bool × Bytes). some (p.0, pubkey)) same,
      e2 ∙ ap (λ (p : Bool × Bytes). ok p.1) same,
    )

-- A channel to the node of a key.
abbrev pub LeadsTo : Bytes → Channel → Type 0
LeadsTo key channel = pub_key_string_to_array channel.remote_pubkey ≡ ok key

keys_of-remote_ends :
    (channels : List Channel) (keys : List Bytes) (key : Bytes)
    → keys_of (remote_ends channels) ≡ ok keys
    → SomeOf (λ k. k ≡ key) keys
    → SomeOf (LeadsTo key) channels
unfolding keys_of remote_ends
keys_of-remote_ends [] [] key h found = found
keys_of-remote_ends [] (k ∷ keys) key h found = absurd cc
keys_of-remote_ends (c ∷ channels) [] key h found = absurd found
keys_of-remote_ends (c ∷ channels) (k ∷ keys) key h found =
    let (first, e, h1) = >>=-eq-ok (pub_key_string_to_array c.remote_pubkey) _ h in
    let (rest, e2, h2) = >>=-eq-ok (keys_of (remote_ends channels)) _ h1 in
    let same : first ∷ rest ≡ k ∷ keys = ok-injective h2 in
    let head_ : first ≡ k = cc in
    let tail_ : rest ≡ keys = cc in
    elim found [
      | inl here ↦ inl (e ∙ ap ok (head_ ∙ here))
      | inr there ↦ inr (keys_of-remote_ends channels keys key (e2 ∙ ap ok tail_) there)
    ]

pub get_local_node_neighbours_pub_keys-channels :
    (ln : Lnd) (neighbours : List Bytes) (key : Bytes)
    → get_local_node_neighbours_pub_keys ln ≡ ok neighbours
    → SomeOf (λ k. k ≡ key) neighbours
    → (channels : List Channel) × (ln.list_channels ≡ some channels) × SomeOf (LeadsTo key) channels
unfolding get_local_node_neighbours_pub_keys
get_local_node_neighbours_pub_keys-channels ln neighbours key h found =
    let (channels, e, h1) = >>=-eq-ok (or_fatal ln.list_channels) _ h in
    (
      channels,
      or_fatal-ok ln.list_channels channels e,
      keys_of-remote_ends channels neighbours key h1 found,
    )
