-- ===== src/Tree/Subtree.antt =====
-- The subtree at the end of a path.
use ld_routing.Base.{
  ℕ, suc, ◌+◌, ◌≡◌, refl, ap, ◌⊎◌, inl, inr, Bool, true, false, Option, [], ◌∷◌, ◌++◌, arith,
  length, zero, subst,
}
use ld_routing.Wire.Bits.{Bits}
use ld_routing.Tree.{Tree, absent, node}
use ld_routing.Tree.Laws.{present}
use ld_routing.Tree.Shape.{Shape}
use ld_routing.Tree.Full.{Full, FullBeside, Shape-on_path, on_path, off_path}

module _ {ℓ} {A : Type ℓ} where
  abbrev pub subtree : Bits → Tree A → Tree A
  subtree [] t = t
  subtree (b ∷ bits) absent = absent
  subtree (b ∷ bits) (node d l r) = subtree bits (on_path b l r)

  pub Shape-subtree :
      (n : ℕ) (bits : Bits) (t : Tree A) → Shape (length bits + n) t → Shape n (subtree bits t)
  Shape-subtree n [] t s = let e : 0 + n ≡ n = omega arith in subst (λ k. Shape k t) e s
  Shape-subtree n (b ∷ bits) absent s = tt
  Shape-subtree n (b ∷ bits) (node d l r) s =
      let e : suc (length bits) + n ≡ suc (length bits + n) = omega arith in
      Shape-subtree n bits (on_path b l r)
        (Shape-on_path (length bits + n) b d l r (subst (λ k. Shape k (node d l r)) e s))

  pub present-append :
      (bits more : Bits) (t : Tree A) → present (bits ++ more) t ≡ present more (subtree bits t)
  unfolding present
  present-append [] more t = refl
  present-append (b ∷ bits) more absent = refl
  present-append (true ∷ bits) more (node d l r) = present-append bits more r
  present-append (false ∷ bits) more (node d l r) = present-append bits more l

  pub Full-cases : (n : ℕ) (t : Tree A) → Full n t ⊎ (¬ Full n t)
  Full-cases n absent = inr (λ f. f)
  Full-cases zero (node d l r) = inl tt
  Full-cases (suc n) (node d l r) = both (Full-cases n l) (Full-cases n r)
    where
      both :
          Full n l ⊎ (¬ Full n l)
          → Full n r ⊎ (¬ Full n r)
          → Full (suc n) (node d l r) ⊎ (¬ Full (suc n) (node d l r))
      both (inl fl) (inl fr) = inl (fl, fr)
      both (inl fl) (inr nr) = inr (λ f. nr f.1)
      both (inr nl) _ = inr (λ f. nl f.0)

  -- The deepest level of a path beside which a subtree is not full.
  pub record Gap (bits : Bits) (t : Tree A) : Type ℓ where
    pub before : Bits
    pub turn : Bool
    pub after : Bits
    pub dat : Option A
    pub left : Tree A
    pub right : Tree A
    pub split : bits ≡ before ++ (turn ∷ after)
    pub at : subtree before t ≡ node dat left right
    pub deeper : FullBeside after (on_path turn left right)
    pub free : ¬ Full (length after) (off_path turn left right)

  -- A path in the tree has full subtrees beside it, or a deepest level where one is not.
  pub Gap-cases :
      (bits : Bits) (t : Tree A) → present bits t ≡ true → FullBeside bits t ⊎ Gap bits t
  unfolding present
  Gap-cases bits absent h = cc
  Gap-cases [] (node d l r) h = inl tt
  Gap-cases (b ∷ bits) (node d l r) h =
      extend (Gap-cases bits (on_path b l r) (below b h))
        (Full-cases (length bits) (off_path b l r))
    where
      below :
          (b : Bool) → present (b ∷ bits) (node d l r) ≡ true → present bits (on_path b l r) ≡ true
      below true h = h
      below false h = h

      extend :
          FullBeside bits (on_path b l r) ⊎ Gap bits (on_path b l r)
          → Full (length bits) (off_path b l r) ⊎ (¬ Full (length bits) (off_path b l r))
          → FullBeside (b ∷ bits) (node d l r) ⊎ Gap (b ∷ bits) (node d l r)
      extend (inl f) (inl g) = inl (g, f)
      extend (inl f) (inr n) = inr (record {
        before = [];
        turn = b;
        after = bits;
        dat = d;
        left = l;
        right = r;
        split = refl;
        at = refl;
        deeper = f;
        free = n;
      })
      extend (inr g) _ = inr (record {
        before = b ∷ g.before;
        turn = g.turn;
        after = g.after;
        dat = g.dat;
        left = g.left;
        right = g.right;
        split = ap (λ x. b ∷ x) g.split;
        at = g.at;
        deeper = g.deeper;
        free = g.free;
      })
