-- ===== src/Tree/Shape.antt =====
-- The shape of the address tree, which the operations of ldrlib/db.go keep: data at depth 32 only.
use ld_routing.Base.{
  ℕ, zero, suc, ◌≡◌, refl, sym, ◌∙◌, ◌&&◌, Bool, true, false, Option, none, some, [], ◌∷◌, arith,
  length,
}
use ld_routing.Wire.Bits.{Bits}
use ld_routing.Tree.{Tree, absent, node, is_nil, insert, modify}
use ld_routing.Tree.Laws.{lookup, present}

module _ {ℓ} {A : Type ℓ} where
  abbrev pub is_some : Option A → Bool
  is_some none = false
  is_some (some v) = true

  -- A subtree below the root: data exactly `n` levels down, and no inner node without a child.
  abbrev pub Shape : ℕ → Tree A → Type 0
  Shape n absent = Unit
  Shape zero (node d l r) = (is_some d ≡ true) × (is_nil l ≡ true) × (is_nil r ≡ true)
  Shape (suc n) (node d l r) =
      (is_some d ≡ false) × ((is_nil l && is_nil r) ≡ false) × Shape n l × Shape n r

  -- The root has no data, and may be without children.
  abbrev pub IsRoot : ℕ → Tree A → Type 0
  IsRoot zero t = ⊥
  IsRoot (suc n) absent = ⊥
  IsRoot (suc n) (node d l r) = (is_some d ≡ false) × Shape n l × Shape n r

  -- In a tree of the right shape a node at full depth has data.
  pub present-eq-is_some :
      (n : ℕ) (bits : Bits) (t : Tree A)
      → length bits ≡ n
      → Shape n t
      → present bits t ≡ is_some (lookup bits t)
  unfolding present lookup
  present-eq-is_some n bits absent e s = refl
  present-eq-is_some zero (b ∷ bits) (node d l r) e s = absurd (omega arith)
  present-eq-is_some (suc n) [] (node d l r) e s = absurd (omega arith)
  present-eq-is_some zero [] (node d l r) e s = sym s.0
  present-eq-is_some (suc n) (true ∷ bits) (node d l r) e s =
      present-eq-is_some n bits r (omega arith) s.3
  present-eq-is_some (suc n) (false ∷ bits) (node d l r) e s =
      present-eq-is_some n bits l (omega arith) s.2

  is_nil-insert : (bits : Bits) (v : A) (t : Tree A) → is_nil (insert bits v t) ≡ false
  unfolding insert
  is_nil-insert [] v absent = refl
  is_nil-insert [] v (node d l r) = refl
  is_nil-insert (true ∷ bits) v absent = refl
  is_nil-insert (false ∷ bits) v absent = refl
  is_nil-insert (true ∷ bits) v (node d l r) = refl
  is_nil-insert (false ∷ bits) v (node d l r) = refl

  -- An insertion at full depth keeps the shape of a subtree.
  pub insert-Shape :
      (n : ℕ) (bits : Bits) (v : A) (t : Tree A)
      → length bits ≡ n
      → Shape n t
      → Shape n (insert bits v t)
  unfolding insert
  insert-Shape zero [] v absent e s = (refl, refl, refl)
  insert-Shape zero [] v (node d l r) e s = (refl, s.1, s.2)
  insert-Shape zero (b ∷ bits) v t e s = absurd (omega arith)
  insert-Shape (suc n) [] v t e s = absurd (omega arith)
  insert-Shape (suc n) (true ∷ bits) v absent e s =
      (refl, is_nil-insert bits v absent, tt, insert-Shape n bits v absent (omega arith) tt)
  insert-Shape (suc n) (false ∷ bits) v absent e s = (
    refl,
    ground (arith, is_nil-insert bits v absent),
    insert-Shape n bits v absent (omega arith) tt,
    tt,
  )
  insert-Shape (suc n) (true ∷ bits) v (node d l r) e s =
      (s.0, ground (arith, is_nil-insert bits v r), s.2, insert-Shape n bits v r (omega arith) s.3)
  insert-Shape (suc n) (false ∷ bits) v (node d l r) e s =
      (s.0, ground (arith, is_nil-insert bits v l), insert-Shape n bits v l (omega arith) s.2, s.3)

  -- An insertion at full depth keeps the shape of the whole tree.
  pub insert-IsRoot :
      (n : ℕ) (bits : Bits) (v : A) (t : Tree A)
      → length bits ≡ n
      → IsRoot n t
      → IsRoot n (insert bits v t)
  unfolding insert
  insert-IsRoot zero bits v t e s = absurd s
  insert-IsRoot (suc n) bits v absent e s = absurd s
  insert-IsRoot (suc n) [] v (node d l r) e s = absurd (omega arith)
  insert-IsRoot (suc n) (true ∷ bits) v (node d l r) e s =
      (s.0, s.1, insert-Shape n bits v r (omega arith) s.2)
  insert-IsRoot (suc n) (false ∷ bits) v (node d l r) e s =
      (s.0, insert-Shape n bits v l (omega arith) s.1, s.2)

  is_nil-modify : (bits : Bits) (f : A → A) (t : Tree A) → is_nil (modify bits f t) ≡ is_nil t
  unfolding modify
  is_nil-modify bits f absent = refl
  is_nil-modify [] f (node none l r) = refl
  is_nil-modify [] f (node (some v) l r) = refl
  is_nil-modify (true ∷ bits) f (node d l r) = refl
  is_nil-modify (false ∷ bits) f (node d l r) = refl

  modify-Shape :
      (n : ℕ) (bits : Bits) (f : A → A) (t : Tree A) → Shape n t → Shape n (modify bits f t)
  unfolding modify
  modify-Shape n bits f absent s = tt
  modify-Shape zero [] f (node none l r) s = s
  modify-Shape zero [] f (node (some v) l r) s = s
  modify-Shape (suc n) [] f (node none l r) s = s
  modify-Shape (suc n) [] f (node (some v) l r) s = s
  modify-Shape zero (true ∷ bits) f (node d l r) s = (s.0, s.1, is_nil-modify bits f r ∙ s.2)
  modify-Shape zero (false ∷ bits) f (node d l r) s = (s.0, is_nil-modify bits f l ∙ s.1, s.2)
  modify-Shape (suc n) (true ∷ bits) f (node d l r) s =
      (s.0, rw (is_nil-modify bits f r) s.1, s.2, modify-Shape n bits f r s.3)
  modify-Shape (suc n) (false ∷ bits) f (node d l r) s =
      (s.0, rw (is_nil-modify bits f l) s.1, modify-Shape n bits f l s.2, s.3)

  -- A write through a data pointer keeps the shape of the whole tree.
  pub modify-IsRoot :
      (n : ℕ) (bits : Bits) (f : A → A) (t : Tree A) → IsRoot n t → IsRoot n (modify bits f t)
  unfolding modify
  modify-IsRoot zero bits f t s = absurd s
  modify-IsRoot (suc n) bits f absent s = absurd s
  modify-IsRoot (suc n) [] f (node none l r) s = s
  modify-IsRoot (suc n) [] f (node (some v) l r) s = s
  modify-IsRoot (suc n) (true ∷ bits) f (node d l r) s = (s.0, s.1, modify-Shape n bits f r s.2)
  modify-IsRoot (suc n) (false ∷ bits) f (node d l r) s = (s.0, modify-Shape n bits f l s.1, s.2)
