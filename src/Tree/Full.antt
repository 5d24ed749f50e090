-- ===== src/Tree/Full.antt =====
-- Subtrees without a free path.
use ld_routing.Base.{
  ℕ, zero, suc, ◌≡◌, refl, Bool, true, false, Option, [], ◌∷◌, arith, length, if◌then◌else◌,
}
use ld_routing.Wire.Bits.{Bits}
use ld_routing.Tree.{Tree, absent, node}
use ld_routing.Tree.Laws.{present}
use ld_routing.Tree.Shape.{Shape, IsRoot}

module _ {ℓ} {A : Type ℓ} where
  -- Every path of `n` bits is there.
  abbrev pub Full : ℕ → Tree A → Type 0
  Full n absent = ⊥
  Full zero (node d l r) = Unit
  Full (suc n) (node d l r) = Full n l × Full n r

  pub present-Full :
      (n : ℕ) (bits : Bits) (t : Tree A) → length bits ≡ n → Full n t → present bits t ≡ true
  unfolding present
  present-Full n bits absent e f = absurd f
  present-Full zero [] (node d l r) e f = refl
  present-Full zero (b ∷ bits) (node d l r) e f = absurd (omega arith)
  present-Full (suc n) [] (node d l r) e f = absurd (omega arith)
  present-Full (suc n) (true ∷ bits) (node d l r) e f = present-Full n bits r (omega arith) f.1
  present-Full (suc n) (false ∷ bits) (node d l r) e f = present-Full n bits l (omega arith) f.0

  -- The child on the side of a bit, and the one on the other side.
  abbrev pub on_path : Bool → Tree A → Tree A → Tree A
  on_path b l r = if b then r else l

  abbrev pub off_path : Bool → Tree A → Tree A → Tree A
  off_path b l r = if b then l else r

  -- Every subtree that hangs off the path is full.
  abbrev pub FullBeside : Bits → Tree A → Type 0
  FullBeside bits absent = ⊥
  FullBeside [] (node d l r) = Unit
  FullBeside (b ∷ bits) (node d l r) =
      Full (length bits) (off_path b l r) × FullBeside bits (on_path b l r)

  -- A path with full subtrees beside it runs in a full tree.
  pub FullBeside-Full : (bits : Bits) (t : Tree A) → FullBeside bits t → Full (length bits) t
  FullBeside-Full bits absent f = absurd f
  FullBeside-Full [] (node d l r) f = tt
  FullBeside-Full (true ∷ bits) (node d l r) f = (f.0, FullBeside-Full bits r f.1)
  FullBeside-Full (false ∷ bits) (node d l r) f = (FullBeside-Full bits l f.1, f.0)

  pub Shape-on_path :
      (n : ℕ) (b : Bool) (d : Option A) (l r : Tree A)
      → Shape (suc n) (node d l r)
      → Shape n (on_path b l r)
  Shape-on_path n true d l r s = s.3
  Shape-on_path n false d l r s = s.2

  pub Shape-root :
      (n : ℕ) (b : Bool) (d : Option A) (l r : Tree A)
      → IsRoot (suc n) (node d l r)
      → Shape n (on_path b l r)
  Shape-root n true d l r s = s.2
  Shape-root n false d l r s = s.1
