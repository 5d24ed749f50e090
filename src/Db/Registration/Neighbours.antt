-- ===== src/Db/Registration/Neighbours.antt =====
-- verifyAddressRegistration of ldrlib/db.go: the loop over the neighbours of the registering node.
use ld_routing.Base.{
  ◌≤◌, ◌≡◌, ◌∙◌, ap, subst, ◌⊎◌, inl, inr, true, false, Bool-cases, none, [], ◌∷◌, List,
  Option-cases, All, SomeOf, arith,
}
use ld_routing.Base.Run.{Run, ok, err, panic, fatal, >>=-eq-ok, fatal_on_error, for_each}
use ld_routing.Base.Bytes.{Bytes, bytes_eq, bytes_eq_iff}
use ld_routing.Base.Dict.{find}
use ld_routing.Db.{Db}
use ld_routing.Db.Addresses.{info_at, get_node_address, suggest_address}
use ld_routing.Db.Registration.{Tally, no_tally, ask_neighbour, passes}

abbrev pub IsUnknown : Db → Bytes → Type 0
IsUnknown db key = find key db.key_to_address_map ≡ none

-- A neighbour with an address from which `address` is suggested.
abbrev pub Suggests : Db → Bytes → Bytes → Type 0
Suggests db address neighbour =
    (seed : Bytes) × (get_node_address db neighbour ≡ ok (seed, true))
    × (suggest_address db seed ≡ ok address)

-- The rule of the protocol: a neighbour suggests the address, or none of them has an address.
abbrev pub Follows : Db → Bytes → List Bytes → Type 0
Follows db address neighbours =
    SomeOf (Suggests db address) neighbours ⊎ All (IsUnknown db) neighbours

ok-injective : {A : Type 0} {a b : A} → ok a ≡ ok b → a ≡ b
ok-injective h = cc

unknown :
    (db : Db) (key address : Bytes)
    → get_node_address db key ≡ ok (address, false)
    → IsUnknown db key
unfolding get_node_address
unknown db key address h = elim (Option-cases (find key db.key_to_address_map)) [
  | inl e ↦ e
  | inr (bits, e) ↦
      let (i, _, h1) = >>=-eq-ok (info_at db bits) _ (rw (e, get_node_address) at h) in absurd cc
]

not_fatal : {A : Type 0} (m : Run A) {a : A} → fatal_on_error m ≡ ok a → m ≡ ok a
not_fatal (ok a) h = h
not_fatal (err e) h = cc
not_fatal panic h = cc
not_fatal fatal h = cc

-- What a neighbour has changed in the tally.
record Asked (db : Db) (address neighbour : Bytes) (before after : Tally) : Type 0 where
  pub counted : before.registered_neighbours ≤ after.registered_neighbours
  pub same : after.registered_neighbours ≡ before.registered_neighbours → IsUnknown db neighbour
  pub suggests : after.suggested ≡ true → Suggests db address neighbour ⊎ (before.suggested ≡ true)

ask_neighbour-Asked :
    (db : Db) (address neighbour : Bytes) (before after : Tally)
    → ask_neighbour db address before neighbour ≡ ok after
    → Asked db address neighbour before after
unfolding ask_neighbour
ask_neighbour-Asked db address neighbour before after h =
    let ((seed, registered), e, h1) = >>=-eq-ok (get_node_address db neighbour) _ h in
    elim (Bool-cases registered) [
      | inr none_ ↦
          let same : before ≡ after = ok-injective (rw none_ at h1) in
          subst (Asked db address neighbour before) same (record {
            counted = omega arith;
            same = λ _. unknown db neighbour seed (e ∙ ap (λ b. ok (seed, b)) none_);
            suggests = λ s. inr s;
          })
      | inl known ↦
          let (suggested, e2, h2) =
            >>=-eq-ok (fatal_on_error (suggest_address db seed)) _ (rw known at h1) in
          subst (Asked db address neighbour before) (ok-injective h2) (record {
            counted = omega arith;
            same = λ n. absurd (omega (arith, n));
            suggests = λ s. elim (Bool-cases (bytes_eq suggested address)) [
              | inl same ↦ inl (
                seed,
                e ∙ ap (λ b. ok (seed, b)) known,
                not_fatal (suggest_address db seed) e2
                    ∙ ap ok ((bytes_eq_iff suggested address).0 same),
              )
              | inr other ↦ inr (rw other at s)
            ];
          })
    ]

-- The loop: what it has counted and found.
ask_neighbours :
    (db : Db) (address : Bytes) (before after : Tally) (neighbours : List Bytes)
    → for_each (ask_neighbour db address) before neighbours ≡ ok after
    → (before.registered_neighbours ≤ after.registered_neighbours)
      × (after.registered_neighbours ≡ before.registered_neighbours → All (IsUnknown db) neighbours)
      × (after.suggested ≡ true
          → SomeOf (Suggests db address) neighbours ⊎ (before.suggested ≡ true))
unfolding for_each
ask_neighbours db address before after [] h =
    let same : before ≡ after = ok-injective h in
    (
      omega (arith, ap (λ (t : Tally). t.registered_neighbours) same),
      λ _. tt,
      λ s. inr (ap (λ (t : Tally). t.suggested) same ∙ s),
    )
ask_neighbours db address before after (n ∷ ns) h =
    let (next, e, h1) = >>=-eq-ok (ask_neighbour db address before n) _ h in
    let asked = ask_neighbour-Asked db address n before next e in
    let (counted, same, suggests) = ask_neighbours db address next after ns h1 in
    let first = asked.counted in
    (
      omega (arith, first, counted),
      λ k. (asked.same (omega (arith, first, counted, k)), same (omega (arith, first, counted, k))),
      λ s. elim (suggests s) [
        | inl found ↦ inl (inr found)
        | inr now ↦ elim (asked.suggests now) [ inl here ↦ inl (inl here) | inr was ↦ inr was ]
      ],
    )

-- A tally of all neighbours that lets a registration pass is one of neighbours that it follows.
pub passes-Follows :
    (db : Db) (address : Bytes) (neighbours : List Bytes) (tally : Tally)
    → for_each (ask_neighbour db address) no_tally neighbours ≡ ok tally
    → passes tally ≡ true
    → Follows db address neighbours
passes-Follows db address neighbours tally h p =
    let (_, same, suggests) = ask_neighbours db address no_tally tally neighbours h in
    elim (Bool-cases tally.suggested) [
      | inl s ↦ elim (suggests s) [ inl found ↦ inl found | inr was ↦ absurd cc ]
      | inr s ↦ inr (same (let q = rw s at p in ground (arith, q)))
    ]
