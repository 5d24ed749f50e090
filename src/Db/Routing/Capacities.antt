-- ===== src/Db/Routing/Capacities.antt =====
-- The capacities that SynchronizeRoutingDB of ldrlib/db.go lowers to a channel's balance.
use ld_routing.Base.{
  ◌≡◌, refl, ◌∙◌, ap, Bool, true, false, ◌&&◌, ◌||◌, List, [], ◌∷◌, ◌==◌, ==_iff, if◌then◌else◌,
  inl, inr, Bool-cases, fun_ext, arith,
}
use ld_routing.Base.Int.{ℤ, pos, negsuc, ltb_ℤ}
use ld_routing.Base.Bytes.{Bytes, bytes_eq}
use ld_routing.Wire.Types.{Ref, RoutingEntry}
use ld_routing.Db.{Db}
use ld_routing.Db.Routing.{set_capacity, lower_capacities}

-- An entry through the neighbour has at most the balance.
abbrev pub lowered : Bytes → ℤ → RoutingEntry → RoutingEntry
lowered neighbour balance e =
    if bytes_eq e.next_hop neighbour && ltb_ℤ balance e.capacity
    then record e { capacity = balance }
    else e

abbrev pub among : Ref → List Ref → Bool
among q [] = false
among q (r ∷ rs) = (q == r) || among q rs

ltb_ℤ_irrefl : (a : ℤ) → ltb_ℤ a a ≡ false
ltb_ℤ_irrefl (pos a) = ground arith
ltb_ℤ_irrefl (negsuc a) = ground arith

&&-false : (b : Bool) → (b && false) ≡ false
&&-false true = refl
&&-false false = refl

lowered-lowered :
    (neighbour : Bytes) (balance : ℤ) (e : RoutingEntry)
    → lowered neighbour balance (lowered neighbour balance e) ≡ lowered neighbour balance e
lowered-lowered neighbour balance e =
    elim (Bool-cases (bytes_eq e.next_hop neighbour && ltb_ℤ balance e.capacity)) [
      | inl h ↦ rw (h, ltb_ℤ_irrefl balance, &&-false (bytes_eq e.next_hop neighbour)) refl
      | inr h ↦ rw (h, h) refl
    ]

-- The store in which the entries of a list are lowered.
abbrev pub lowered_cells : Bytes → ℤ → List Ref → (Ref → RoutingEntry) → Ref → RoutingEntry
lowered_cells neighbour balance rs cells q =
    if among q rs then lowered neighbour balance (cells q) else cells q

lowered_cells-step :
    (neighbour : Bytes) (balance : ℤ) (db : Db) (r : Ref)
    → (if bytes_eq (db.cells r).next_hop neighbour && ltb_ℤ balance (db.cells r).capacity
        then set_capacity r balance db
        else db)
      ≡ record db { cells = lowered_cells neighbour balance (r ∷ []) db.cells }
unfolding set_capacity
lowered_cells-step neighbour balance db r =
    let e = db.cells r in
    let there = λ (q : Ref) (h : (q == r) ≡ true). ap db.cells ((==_iff q r).0 h) in
    elim (Bool-cases (bytes_eq e.next_hop neighbour && ltb_ℤ balance e.capacity)) [
      | inl low ↦ rw low (
          ap (λ cells. record db { cells = cells })
            (fun_ext (λ q. elim (Bool-cases (q == r)) [
              | inl h ↦ rw (h, there q h, low) refl
              | inr h ↦ rw h refl
            ])))
      | inr keep ↦ rw keep (
          ap (λ cells. record db { cells = cells })
            (fun_ext (λ q. elim (Bool-cases (q == r)) [
              | inl h ↦ rw (h, there q h, keep) refl
              | inr h ↦ rw h refl
            ])))
    ]

lowered_cells-∷ :
    (neighbour : Bytes) (balance : ℤ) (cells : Ref → RoutingEntry) (r : Ref) (rs : List Ref)
    (q : Ref)
    → lowered_cells neighbour balance rs (lowered_cells neighbour balance (r ∷ []) cells) q
      ≡ lowered_cells neighbour balance (r ∷ rs) cells q
lowered_cells-∷ neighbour balance cells r rs q = elim (Bool-cases (q == r)) [
  | inl e ↦ elim (Bool-cases (among q rs)) [
    | inl m ↦ rw (e, m) (lowered-lowered neighbour balance (cells q))
    | inr m ↦ rw (e, m) refl
  ]
  | inr e ↦ rw e refl
]

-- The inner loop of SynchronizeRoutingDB sets the entries that it goes over and whose next hop is the
-- neighbour to the lesser of their capacity and the channel's balance, each as if it were the only
-- one, also where an entry stands twice in the list; all else of the database is as before.
pub lower_capacities-lowered_cells :
    (neighbour : Bytes) (balance : ℤ) (db : Db) (rs : List Ref)
    → lower_capacities neighbour balance db rs
      ≡ record db { cells = lowered_cells neighbour balance rs db.cells }
unfolding lower_capacities
lower_capacities-lowered_cells neighbour balance db [] = refl
lower_capacities-lowered_cells neighbour balance db (r ∷ rs) =
    ap (λ d. lower_capacities neighbour balance d rs) (lowered_cells-step neighbour balance db r)
    ∙ (lower_capacities-lowered_cells neighbour balance
          (record db { cells = lowered_cells neighbour balance (r ∷ []) db.cells }) rs
        ∙ ap (λ cells. record db { cells = cells })
            (fun_ext (λ q. lowered_cells-∷ neighbour balance db.cells r rs q)))
