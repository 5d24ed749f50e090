-- ===== src/Suggest/Dfs.antt =====
-- leftToRightDFS and rightToLeftDFS of ldrlib/db.go: they fail exactly on full subtrees, and what
-- they find is the path that they were given, padded with zeros: not the path that they walked.
use ld_routing.Base.{
  ℕ, zero, suc, ◌+◌, ◌≤◌, ◌≡◌, refl, ◌⊎◌, inl, inr, false, none, some, Option, arith,
}
use ld_routing.Wire.Bits.{Bits}
use ld_routing.Tree.{Tree, absent, node}
use ld_routing.Tree.Shape.{Shape}
use ld_routing.Tree.Full.{Full}
use ld_routing.Suggest.{right_pad, left_to_right_dfs, right_to_left_dfs}

-- The given path, padded from a position that is at least `low`.
abbrev pub PaddedFrom : ℕ → Bits → Bits → Type 0
PaddedFrom low bits found = (k : ℕ) × (found ≡ right_pad bits k false) × (low ≤ k)

-- A search finds the given path padded from a position that is at least `low`, or fails.
abbrev pub FoundFrom : ℕ → Option Bits → Bits → Type 0
FoundFrom low result bits = (found : Bits) × (result ≡ some found) × PaddedFrom low bits found

module _ {ℓ} {A : Type ℓ} where
  pub left_to_right_dfs-Full :
      (n : ℕ) (t : Tree A) (bits : Bits) (p : ℕ)
      → Shape n t
      → Full n t
      → left_to_right_dfs t bits p ≡ none
  unfolding left_to_right_dfs
  left_to_right_dfs-Full n absent bits p s f = absurd f
  left_to_right_dfs-Full zero (node d l r) bits p s f = ground arith
  left_to_right_dfs-Full (suc n) (node d l r) bits p s f = ground (
    arith,
    left_to_right_dfs-Full n l bits (p + 1) s.2 f.0,
    left_to_right_dfs-Full n r bits (p + 1) s.3 f.1,
  )

  pub right_to_left_dfs-Full :
      (n : ℕ) (t : Tree A) (bits : Bits) (p : ℕ)
      → Shape n t
      → Full n t
      → right_to_left_dfs t bits p ≡ none
  unfolding right_to_left_dfs
  right_to_left_dfs-Full n absent bits p s f = absurd f
  right_to_left_dfs-Full zero (node d l r) bits p s f = ground arith
  right_to_left_dfs-Full (suc n) (node d l r) bits p s f = ground (
    arith,
    right_to_left_dfs-Full n r bits (p + 1) s.3 f.1,
    right_to_left_dfs-Full n l bits (p + 1) s.2 f.0,
  )

  -- At a node, from what the searches of its children do.
  left_to_right_dfs-step :
      (n : ℕ) (d : Option A) (l r : Tree A) (bits : Bits) (p : ℕ)
      → Shape (suc n) (node d l r)
      → FoundFrom (p + 1) (left_to_right_dfs l bits (p + 1)) bits ⊎ Full n l
      → FoundFrom (p + 1) (left_to_right_dfs r bits (p + 1)) bits ⊎ Full n r
      → FoundFrom (p + 1) (left_to_right_dfs (node d l r) bits p) bits ⊎ Full (suc n) (node d l r)
  unfolding left_to_right_dfs
  left_to_right_dfs-step n d l r bits p s (inl (found, e, padded)) _ =
      inl (found, ground arith, padded)
  left_to_right_dfs-step n d l r bits p s (inr full_first) (inl (found, e, padded)) =
      inl (found, ground (arith, left_to_right_dfs-Full n l bits (p + 1) s.2 full_first), padded)
  left_to_right_dfs-step n d l r bits p s (inr full_first) (inr full_second) =
      inr (full_first, full_second)

  -- The search of a subtree finds something exactly when the subtree is not full.
  left_to_right_dfs-cases :
      (n : ℕ) (t : Tree A) (bits : Bits) (p : ℕ)
      → Shape n t
      → FoundFrom p (left_to_right_dfs t bits p) bits ⊎ Full n t
  unfolding left_to_right_dfs
  left_to_right_dfs-cases n absent bits p s =
      inl (right_pad bits p false, refl, (p, refl, omega arith))
  left_to_right_dfs-cases zero (node d l r) bits p s = inr tt
  left_to_right_dfs-cases (suc n) (node d l r) bits p s =
      elim (left_to_right_dfs-step n d l r bits p s (left_to_right_dfs-cases n l bits (p + 1) s.2)
        (left_to_right_dfs-cases n r bits (p + 1) s.3)) [
          | inl (found, e, (k, q, low)) ↦ inl (found, e, (k, q, omega arith))
          | inr full ↦ inr full
        ]

  pub left_to_right_dfs-node :
      (n : ℕ) (d : Option A) (l r : Tree A) (bits : Bits) (p : ℕ)
      → Shape n (node d l r)
      → FoundFrom (p + 1) (left_to_right_dfs (node d l r) bits p) bits ⊎ Full n (node d l r)
  left_to_right_dfs-node zero d l r bits p s = inr tt
  left_to_right_dfs-node (suc n) d l r bits p s =
      left_to_right_dfs-step n d l r bits p s (left_to_right_dfs-cases n l bits (p + 1) s.2)
        (left_to_right_dfs-cases n r bits (p + 1) s.3)

  -- At a node, from what the searches of its children do.
  right_to_left_dfs-step :
      (n : ℕ) (d : Option A) (l r : Tree A) (bits : Bits) (p : ℕ)
      → Shape (suc n) (node d l r)
      → FoundFrom (p + 1) (right_to_left_dfs r bits (p + 1)) bits ⊎ Full n r
      → FoundFrom (p + 1) (right_to_left_dfs l bits (p + 1)) bits ⊎ Full n l
      → FoundFrom (p + 1) (right_to_left_dfs (node d l r) bits p) bits ⊎ Full (suc n) (node d l r)
  unfolding right_to_left_dfs
  right_to_left_dfs-step n d l r bits p s (inl (found, e, padded)) _ =
      inl (found, ground arith, padded)
  right_to_left_dfs-step n d l r bits p s (inr full_first) (inl (found, e, padded)) =
      inl (found, ground (arith, right_to_left_dfs-Full n r bits (p + 1) s.3 full_first), padded)
  right_to_left_dfs-step n d l r bits p s (inr full_first) (inr full_second) =
      inr (full_second, full_first)

  -- The search of a subtree finds something exactly when the subtree is not full.
  right_to_left_dfs-cases :
      (n : ℕ) (t : Tree A) (bits : Bits) (p : ℕ)
      → Shape n t
      → FoundFrom p (right_to_left_dfs t bits p) bits ⊎ Full n t
  unfolding right_to_left_dfs
  right_to_left_dfs-cases n absent bits p s =
      inl (right_pad bits p false, refl, (p, refl, omega arith))
  right_to_left_dfs-cases zero (node d l r) bits p s = inr tt
  right_to_left_dfs-cases (suc n) (node d l r) bits p s =
      elim (right_to_left_dfs-step n d l r bits p s (right_to_left_dfs-cases n r bits (p + 1) s.3)
        (right_to_left_dfs-cases n l bits (p + 1) s.2)) [
          | inl (found, e, (k, q, low)) ↦ inl (found, e, (k, q, omega arith))
          | inr full ↦ inr full
        ]

  pub right_to_left_dfs-node :
      (n : ℕ) (d : Option A) (l r : Tree A) (bits : Bits) (p : ℕ)
      → Shape n (node d l r)
      → FoundFrom (p + 1) (right_to_left_dfs (node d l r) bits p) bits ⊎ Full n (node d l r)
  right_to_left_dfs-node zero d l r bits p s = inr tt
  right_to_left_dfs-node (suc n) d l r bits p s =
      right_to_left_dfs-step n d l r bits p s (right_to_left_dfs-cases n r bits (p + 1) s.3)
        (right_to_left_dfs-cases n l bits (p + 1) s.2)
