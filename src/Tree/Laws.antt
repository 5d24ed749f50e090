-- ===== src/Tree/Laws.antt =====
-- The tree as a map from paths to data.
use ld_routing.Base.{
  ◌≡◌, ◌≢◌, refl, ap, Bool, true, false, Option, none, some, [], ◌∷◌, arith, length, inl, inr,
  Bool-cases, sym, ◌∙◌,
}
use mathlib.Core.Option
use ld_routing.Base.Run.{ok, ◌>>=◌, or_panic}
use ld_routing.Wire.Bits.{Bits}
use ld_routing.Tree.{
  Tree, absent, node, child, get_data, walk, is_registered, find_data, insert, modify,
}

module _ {ℓ} {A : Type ℓ} where
  -- The data at the end of a path.
  unfoldable pub lookup : Bits → Tree A → Option A
  lookup bits absent = none
  lookup [] (node d l r) = d
  lookup (true ∷ bits) (node d l r) = lookup bits r
  lookup (false ∷ bits) (node d l r) = lookup bits l

  -- There is a node at the end of a path.
  unfoldable pub present : Bits → Tree A → Bool
  present bits absent = false
  present [] (node d l r) = true
  present (true ∷ bits) (node d l r) = present bits r
  present (false ∷ bits) (node d l r) = present bits l

  -- The walk to a path and the read of its data.
  pub walk-get_data :
      (bits : Bits) (t : Tree A) → (walk bits t >>= get_data) ≡ or_panic (lookup bits t)
  unfolding walk child get_data lookup
  walk-get_data [] absent = refl
  walk-get_data [] (node d l r) = refl
  walk-get_data (true ∷ bits) absent = refl
  walk-get_data (false ∷ bits) absent = refl
  walk-get_data (true ∷ bits) (node d l r) = walk-get_data bits r
  walk-get_data (false ∷ bits) (node d l r) = walk-get_data bits l

  pub lookup-insert_self :
      (bits : Bits) (v : A) (t : Tree A) → lookup bits (insert bits v t) ≡ some v
  unfolding lookup insert
  lookup-insert_self [] v absent = refl
  lookup-insert_self [] v (node d l r) = refl
  lookup-insert_self (true ∷ bits) v absent = lookup-insert_self bits v absent
  lookup-insert_self (false ∷ bits) v absent = lookup-insert_self bits v absent
  lookup-insert_self (true ∷ bits) v (node d l r) = lookup-insert_self bits v r
  lookup-insert_self (false ∷ bits) v (node d l r) = lookup-insert_self bits v l

  -- An insertion at one path leaves every other path of the same length as it was.
  pub lookup-insert_ne :
      (bits other : Bits) (v : A) (t : Tree A)
      → length other ≡ length bits
      → other ≢ bits
      → lookup other (insert bits v t) ≡ lookup other t
  unfolding lookup insert
  lookup-insert_ne [] [] v t e n = absurd (n refl)
  lookup-insert_ne [] (c ∷ other) v t e n = absurd (omega arith)
  lookup-insert_ne (b ∷ bits) [] v t e n = absurd (omega arith)
  lookup-insert_ne (true ∷ bits) (true ∷ other) v absent e n =
      lookup-insert_ne bits other v absent (omega arith) (λ p. n (ap (λ x. true ∷ x) p))
  lookup-insert_ne (true ∷ bits) (false ∷ other) v absent e n = refl
  lookup-insert_ne (false ∷ bits) (true ∷ other) v absent e n = refl
  lookup-insert_ne (false ∷ bits) (false ∷ other) v absent e n =
      lookup-insert_ne bits other v absent (omega arith) (λ p. n (ap (λ x. false ∷ x) p))
  lookup-insert_ne (true ∷ bits) (true ∷ other) v (node d l r) e n =
      lookup-insert_ne bits other v r (omega arith) (λ p. n (ap (λ x. true ∷ x) p))
  lookup-insert_ne (true ∷ bits) (false ∷ other) v (node d l r) e n = refl
  lookup-insert_ne (false ∷ bits) (true ∷ other) v (node d l r) e n = refl
  lookup-insert_ne (false ∷ bits) (false ∷ other) v (node d l r) e n =
      lookup-insert_ne bits other v l (omega arith) (λ p. n (ap (λ x. false ∷ x) p))

  -- A write through a data pointer changes that datum.
  pub lookup-modify_self :
      (bits : Bits) (f : A → A) (t : Tree A)
      → lookup bits (modify bits f t) ≡ Option.map f (lookup bits t)
  unfolding lookup modify
  lookup-modify_self bits f absent = refl
  lookup-modify_self [] f (node none l r) = refl
  lookup-modify_self [] f (node (some v) l r) = refl
  lookup-modify_self (true ∷ bits) f (node d l r) = lookup-modify_self bits f r
  lookup-modify_self (false ∷ bits) f (node d l r) = lookup-modify_self bits f l

  -- A write through a data pointer leaves the data at every other path of the same length.
  pub lookup-modify_ne :
      (bits other : Bits) (f : A → A) (t : Tree A)
      → length other ≡ length bits
      → other ≢ bits
      → lookup other (modify bits f t) ≡ lookup other t
  unfolding lookup modify
  lookup-modify_ne bits other f absent e n = refl
  lookup-modify_ne [] [] f (node d l r) e n = absurd (n refl)
  lookup-modify_ne [] (c ∷ other) f (node d l r) e n = absurd (omega arith)
  lookup-modify_ne (b ∷ bits) [] f (node d l r) e n = absurd (omega arith)
  lookup-modify_ne (true ∷ bits) (true ∷ other) f (node d l r) e n =
      lookup-modify_ne bits other f r (omega arith) (λ p. n (ap (λ x. true ∷ x) p))
  lookup-modify_ne (true ∷ bits) (false ∷ other) f (node d l r) e n = refl
  lookup-modify_ne (false ∷ bits) (true ∷ other) f (node d l r) e n = refl
  lookup-modify_ne (false ∷ bits) (false ∷ other) f (node d l r) e n =
      lookup-modify_ne bits other f l (omega arith) (λ p. n (ap (λ x. false ∷ x) p))

  -- The walk of IsAddressRegistered never panics below a node, and finds whether the path is there.
  pub is_registered-present :
      (bits : Bits) (d : Option A) (l r : Tree A)
      → is_registered bits (node d l r) ≡ ok (present bits (node d l r))
  unfolding is_registered child present
  is_registered-present [] d l r = refl
  is_registered-present (true ∷ bits) d l absent = refl
  is_registered-present (false ∷ bits) d absent r = refl
  is_registered-present (true ∷ bits) d l (node d' l' r') = is_registered-present bits d' l' r'
  is_registered-present (false ∷ bits) d (node d' l' r') r = is_registered-present bits d' l' r'

  pub present-lookup-none :
      (bits : Bits) (t : Tree A) → present bits t ≡ false → lookup bits t ≡ none
  unfolding present lookup
  present-lookup-none bits absent h = refl
  present-lookup-none [] (node d l r) h = cc
  present-lookup-none (true ∷ bits) (node d l r) h = present-lookup-none bits r h
  present-lookup-none (false ∷ bits) (node d l r) h = present-lookup-none bits l h

  pub lookup-present :
      (bits : Bits) (t : Tree A) (v : A) → lookup bits t ≡ some v → present bits t ≡ true
  lookup-present bits t v h = elim (Bool-cases (present bits t)) [
    | inl e ↦ e
    | inr e ↦ absurd (cc (sym h ∙ present-lookup-none bits t e))
  ]

  -- The walk of GetAddressNode finds the data that the tree holds at the path.
  pub find_data-lookup :
      (bits : Bits) (t : Tree A) (v : A) → lookup bits t ≡ some v → find_data bits t ≡ ok (some v)
  unfolding find_data child lookup get_data
  find_data-lookup bits absent v h = cc
  find_data-lookup [] (node d l r) v h = ap (λ o. or_panic o >>= λ x. ok (some x)) h
  find_data-lookup (true ∷ bits) (node d l absent) v h = cc
  find_data-lookup (false ∷ bits) (node d absent r) v h = cc
  find_data-lookup (true ∷ bits) (node d l (node d' l' r')) v h =
      find_data-lookup bits (node d' l' r') v h
  find_data-lookup (false ∷ bits) (node d (node d' l' r') r) v h =
      find_data-lookup bits (node d' l' r') v h
