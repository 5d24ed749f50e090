-- ===== src/Client/Options.antt =====
-- addressRegistrationMenu of client.go: where the address comes from that is registered.
use ld_routing.Base.{
  ℕ, zero, suc, ◌≡◌, ◌∙◌, ap, subst, true, some, List, [], ◌∷◌, ◌++◌, ◌⊎◌, inl, inr, Bool-cases,
  Option-cases, get_elem?, All,
}
use ld_routing.Base.Run.{Run, ok, err, panic, fatal, >>=-eq-ok, fatal_on_error}
use ld_routing.Base.Bytes.{Bytes}
use ld_routing.Bitcoin.Broadcast.{Wallet, broadcast_new_address_tx}
use ld_routing.Db.{Db}
use ld_routing.Db.Addresses.{get_node_address, suggest_address}
use ld_routing.Db.Lnd.{Lnd}
use ld_routing.Client.{
  Parsers, get_valid_address_from_user, register, register_address_menu, AddressOption, option_of,
  address_options,
}

-- some element satisfies `P`
abbrev pub Any {ℓ} : {A : Type ℓ} → (A → Type 0) → List A → Type 0
Any P [] = ⊥
Any P (x ∷ xs) = P x ⊎ Any P xs

-- The address is what SuggestAddress gives for the address of a neighbour.
abbrev pub Suggests : Db → Bytes → Bytes → Type 0
Suggests db address key =
    (neighbour_address : Bytes) × (get_node_address db key ≡ ok (neighbour_address, true))
    × (suggest_address db neighbour_address ≡ ok address)

-- The address is what a text reads as.
abbrev pub Reads : Parsers → Bytes → Bytes → Type 0
Reads parsers address text = parsers.parse_ip text ≡ some address

ok-injective {ℓ} : {A : Type ℓ} {a b : A} → ok a ≡ ok b → a ≡ b
ok-injective h = cc

some-injective {ℓ} : {A : Type ℓ} {a b : A} → some a ≡ some b → a ≡ b
some-injective h = cc

fatal_on_error-ok {ℓ} : {A : Type ℓ} (m : Run A) (a : A) → fatal_on_error m ≡ ok a → m ≡ ok a
fatal_on_error-ok (ok b) a h = h
fatal_on_error-ok (err e) a h = cc
fatal_on_error-ok panic a h = cc
fatal_on_error-ok fatal a h = cc

All-append : {A : Type 0} (P : A → Type 0) (xs ys : List A) → All P xs → All P ys → All P (xs ++ ys)
All-append P [] ys p q = q
All-append P (x ∷ xs) ys p q = (p.0, All-append P xs ys p.1 q)

All-weaken :
    {A : Type 0} {P Q : A → Type 0} (xs : List A) → ((x : A) → P x → Q x) → All P xs → All Q xs
All-weaken [] f p = tt
All-weaken (x ∷ xs) f p = (f x p.0, All-weaken xs f p.1)

pub All-get_elem? :
    {A : Type 0} (P : A → Type 0) (xs : List A) (n : ℕ) (x : A)
    → All P xs
    → get_elem? xs n ≡ some x
    → P x
All-get_elem? P [] n x p e = absurd cc
All-get_elem? P (y ∷ xs) zero x p e = subst P (some-injective e) p.0
All-get_elem? P (y ∷ xs) (suc n) x p e = All-get_elem? P xs n x p.1 e

option_of-Suggests :
    (db : Db) (key : Bytes) (options : List AddressOption)
    → option_of db key ≡ ok options
    → All (λ o. Suggests db o.suggested key) options
unfolding option_of
option_of-Suggests db key options e =
    let ((address, registered), e1, e2) = >>=-eq-ok (get_node_address db key) _ e in
    elim (Bool-cases registered) [
      | inl yes_ ↦
          let (suggested, e3, e4) =
            >>=-eq-ok (fatal_on_error (suggest_address db address)) _ (rw yes_ at e2) in
          subst (λ os. All (λ o. Suggests db o.suggested key) os) (ok-injective e4)
            (
              (
                address,
                e1 ∙ ap (λ b. ok (address, b)) yes_,
                fatal_on_error-ok (suggest_address db address) suggested e3,
              ),
              tt,
            )
      | inr no_ ↦
          let nothing : [] ≡ options = ok-injective (rw no_ at e2) in
          subst (λ os. All (λ o. Suggests db o.suggested key) os) nothing tt
    ]

pub address_options-Suggests :
    (db : Db) (keys : List Bytes) (options : List AddressOption)
    → address_options db keys ≡ ok options
    → All (λ o. Any (Suggests db o.suggested) keys) options
unfolding address_options
address_options-Suggests db [] options e =
    subst (λ os. All (λ o. Any (Suggests db o.suggested) []) os) (ok-injective e) tt
address_options-Suggests db (key ∷ keys) options e =
    let (first, e1, e2) = >>=-eq-ok (option_of db key) _ e in
    let (rest, e3, e4) = >>=-eq-ok (address_options db keys) _ e2 in
    subst (λ os. All (λ o. Any (Suggests db o.suggested) (key ∷ keys)) os) (ok-injective e4)
      (All-append (λ o. Any (Suggests db o.suggested) (key ∷ keys)) first rest
        (All-weaken first (λ o p. inl p) (option_of-Suggests db key first e1))
        (All-weaken rest (λ o p. inr p) (address_options-Suggests db keys rest e3)))

entered-Reads :
    (parsers : Parsers) (lines rest : List Bytes) (address : Bytes)
    → get_valid_address_from_user parsers lines ≡ some (address, rest)
    → Any (Reads parsers address) (lines ++ ([] ∷ []))
unfolding get_valid_address_from_user
entered-Reads parsers [] rest address e = elim (Option-cases (parsers.parse_ip [])) [
  | inl none_ ↦ absurd (cc (rw (none_, get_valid_address_from_user) at e))
  | inr (a, some_) ↦
      let same : (a, []) ≡ (address, rest) =
        some-injective (rw (some_, get_valid_address_from_user) at e) in
      inl (some_ ∙ ap (λ (p : Bytes × List Bytes). some p.0) same)
]
entered-Reads parsers (line ∷ lines) rest address e = elim (Option-cases (parsers.parse_ip line)) [
  | inl none_ ↦
      inr (entered-Reads parsers lines rest address (rw (none_, get_valid_address_from_user) at e))
  | inr (a, some_) ↦
      let same : (a, lines) ≡ (address, rest) =
        some-injective (rw (some_, get_valid_address_from_user) at e) in
      inl (some_ ∙ ap (λ (p : Bytes × List Bytes). some p.0) same)
]

-- An address that was broadcast.
abbrev pub Broadcast : Wallet → Lnd → Bytes → Type 0
Broadcast wallet ln address =
    (hash : Bytes) × (broadcast_new_address_tx wallet ln address ≡ ok hash)

pub register-Broadcast :
    (wallet : Wallet) (ln : Lnd) (chosen address : Bytes) (lines rest : List Bytes)
    → register wallet ln chosen lines ≡ ok (some (address, rest))
    → (chosen ≡ address) × Broadcast wallet ln address
unfolding register
register-Broadcast wallet ln chosen address lines rest e =
    let (hash, e1, e2) =
      >>=-eq-ok (fatal_on_error (broadcast_new_address_tx wallet ln chosen)) _ e in
    let same : chosen ≡ address =
      ap (λ (p : Bytes × List Bytes). p.0) (some-injective (ok-injective e2)) in
    (
      same,
      subst (Broadcast wallet ln) same
          (hash, fatal_on_error-ok (broadcast_new_address_tx wallet ln chosen) hash e1),
    )

pub register_address_menu-Reads :
    (parsers : Parsers) (wallet : Wallet) (ln : Lnd) (lines rest : List Bytes) (address : Bytes)
    → register_address_menu parsers wallet ln lines ≡ ok (some (address, rest))
    → Any (Reads parsers address) (lines ++ ([] ∷ [])) × Broadcast wallet ln address
unfolding register_address_menu
register_address_menu-Reads parsers wallet ln lines rest address e =
    elim (Option-cases (get_valid_address_from_user parsers lines)) [
      | inl none_ ↦ absurd (cc (rw (none_, register_address_menu) at e))
      | inr ((a, left), some_) ↦
          let (same, broadcast) =
            register-Broadcast wallet ln a address left rest
              (rw (some_, register_address_menu) at e) in
          (
            entered-Reads parsers lines left address (some_ ∙ ap (λ x. some (x, left)) same),
            broadcast,
          )
    ]
