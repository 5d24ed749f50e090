-- ===== src/Client/Choice.antt =====
-- addressRegistrationMenu of client.go: what the user's choice leads to.
use ld_routing.Base.{
  ◌-◌, ◌≡◌, subst, ◌||◌, some, List, [], ◌∷◌, ◌++◌, ◌⊎◌, inl, inr, Bool-cases, Option-cases, length,
  get_elem?, All,
}
use ld_routing.Base.Int.{ℤ, pos, negsuc, ltb_ℤ}
use ld_routing.Base.Run.{ok, >>=-eq-ok, or_fatal}
use ld_routing.Base.Bytes.{Bytes}
use ld_routing.Bitcoin.Broadcast.{Wallet}
use ld_routing.Db.{Db}
use ld_routing.Db.Lnd.{Lnd, get_local_node_neighbours_pub_keys}
use ld_routing.Client.{
  Parsers, register_address_menu, AddressOption, address_options, choose_option, address_menu,
  address_registration_menu,
}
use ld_routing.Client.Options.{
  Any, Suggests, Reads, Broadcast, All-get_elem?, address_options-Suggests, register-Broadcast,
  register_address_menu-Reads,
}

-- An address that came from an option with `P`, or from a line that was entered, and was broadcast.
abbrev pub IsChosen : (Bytes → Type 0) → Parsers → Wallet → Lnd → List Bytes → Bytes → Type 0
IsChosen P parsers wallet ln lines address =
    (P address ⊎ Any (Reads parsers address) (lines ++ ([] ∷ []))) × Broadcast wallet ln address

entered :
    (P : Bytes → Type 0) (parsers : Parsers) (wallet : Wallet) (ln : Lnd) (lines rest : List Bytes)
    (address : Bytes)
    → register_address_menu parsers wallet ln lines ≡ ok (some (address, rest))
    → IsChosen P parsers wallet ln lines address
entered P parsers wallet ln lines rest address e =
    let (read_, broadcast) = register_address_menu-Reads parsers wallet ln lines rest address e in
    (inr read_, broadcast)

choose_option-IsChosen :
    (P : Bytes → Type 0) (parsers : Parsers) (wallet : Wallet) (ln : Lnd)
    (options : List AddressOption) (lines rest : List Bytes) (choice : ℤ) (address : Bytes)
    → All (λ o. P o.suggested) options
    → choose_option parsers wallet ln options lines choice ≡ ok (some (address, rest))
    → IsChosen P parsers wallet ln lines address
unfolding choose_option
choose_option-IsChosen P parsers wallet ln options lines rest (negsuc n) address ps e =
    elim (Bool-cases (ltb_ℤ (negsuc n) (negsuc 0) || ltb_ℤ (pos (length options - 1)) (negsuc n))) [
      | inl out ↦ absurd (cc (rw (out, choose_option) at e))
      | inr in_ ↦ entered P parsers wallet ln lines rest address (rw (in_, choose_option) at e)
    ]
choose_option-IsChosen P parsers wallet ln options lines rest (pos n) address ps e =
    elim (Bool-cases (ltb_ℤ (pos n) (negsuc 0) || ltb_ℤ (pos (length options - 1)) (pos n))) [
      | inl out ↦ absurd (cc (rw (out, choose_option) at e))
      | inr in_ ↦ elim (Option-cases (get_elem? options n)) [
        | inl none_ ↦ absurd (cc (rw (in_, choose_option, none_) at e))
        | inr (option, some_) ↦
            let (same, broadcast) =
              register-Broadcast wallet ln option.suggested address lines rest
                (rw (in_, choose_option, some_) at e) in
            (
              inl (subst P same (All-get_elem? (λ o. P o.suggested) options n option ps some_)),
              broadcast,
            )
      ]
    ]

address_menu-IsChosen :
    (P : Bytes → Type 0) (parsers : Parsers) (wallet : Wallet) (ln : Lnd)
    (options : List AddressOption) (lines rest : List Bytes) (address : Bytes)
    → address_menu parsers wallet ln options lines ≡ ok (some (address, rest))
    → All (λ o. P o.suggested) options
    → IsChosen P parsers wallet ln lines address
unfolding address_menu
address_menu-IsChosen P parsers wallet ln [] lines rest address h ps =
    entered P parsers wallet ln lines rest address h
address_menu-IsChosen P parsers wallet ln (option ∷ options) [] rest address h ps =
    let (choice, _, h') = >>=-eq-ok (or_fatal (parsers.atoi [])) _ h in
    choose_option-IsChosen P parsers wallet ln (option ∷ options) [] rest choice address ps h'
address_menu-IsChosen P parsers wallet ln (option ∷ options) (line ∷ lines) rest address h ps =
    let (choice, _, h') = >>=-eq-ok (or_fatal (parsers.atoi line)) _ h in
    let (source, broadcast) =
      choose_option-IsChosen P parsers wallet ln (option ∷ options) lines rest choice address ps
        h' in
    (elim source [ inl s ↦ inl s | inr r ↦ inr (inr r) ], broadcast)

-- The address that the menu returns was broadcast, and is either what SuggestAddress gives for the
-- address of a registered neighbour, or what a line that the user entered reads as; the empty text
-- counts as a line.
pub address_registration_menu-IsChosen :
    (parsers : Parsers) (wallet : Wallet) (ln : Lnd) (db : Db) (lines rest : List Bytes)
    (address : Bytes)
    → address_registration_menu parsers wallet ln db lines ≡ ok (some (address, rest))
    → (neighbours : List Bytes) × (get_local_node_neighbours_pub_keys ln ≡ ok neighbours)
      × IsChosen (λ a. Any (Suggests db a) neighbours) parsers wallet ln lines address
unfolding address_registration_menu
address_registration_menu-IsChosen parsers wallet ln db lines rest address e =
    let (neighbours, e1, e2) = >>=-eq-ok (get_local_node_neighbours_pub_keys ln) _ e in
    let (options, e3, e4) = >>=-eq-ok (address_options db neighbours) _ e2 in
    (
      neighbours,
      e1,
      address_menu-IsChosen (λ a. Any (Suggests db a) neighbours) parsers wallet ln options lines
          rest address e4 (address_options-Suggests db neighbours options e3),
    )
