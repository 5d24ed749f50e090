-- ===== src/Suggest/Search.antt =====
-- closestFreeAddress with its bottomSearch, level by level along the seed's path. `drop i seed` is
-- what is left of the seed at level `i`.
use ld_routing.Base.{
  ℕ, zero, suc, ◌+◌, ◌≡◌, inl, inr, Bool, true, false, not, ◌&&◌, Option, none, some, List, [], ◌∷◌,
  arith, length, drop, get_elem?,
}
use ld_routing.Base.Run.{Run, ok, ◌>>=◌}
use ld_routing.Base.Bytes.{Bytes}
use ld_routing.Wire.Bits.{Bits, bit_to_byte}
use ld_routing.Tree.{Tree, absent, node, is_nil}
use ld_routing.Tree.Shape.{Shape}
use ld_routing.Tree.Full.{Full, FullBeside, Shape-on_path, on_path, off_path}
use ld_routing.Suggest.{
  set_bit, right_pad, search_left, search_right, bottom_search, or_bottom_search,
  closest_free_address,
}
use ld_routing.Suggest.Dfs.{
  PaddedFrom, left_to_right_dfs-Full, right_to_left_dfs-Full, left_to_right_dfs-node,
  right_to_left_dfs-node,
}

pub get_elem?-drop {ℓ} :
    {A : Type ℓ} (i : ℕ) (xs : List A) (x : A) (rest : List A)
    → drop i xs ≡ x ∷ rest
    → get_elem? xs i ≡ some x
get_elem?-drop zero [] x rest h = cc
get_elem?-drop zero (y ∷ xs) x rest h = cc
get_elem?-drop (suc i) [] x rest h = cc
get_elem?-drop (suc i) (y ∷ xs) x rest h = get_elem?-drop i xs x rest h

pub drop-add-one {ℓ} :
    {A : Type ℓ} (i : ℕ) (xs : List A) (x : A) (rest : List A)
    → drop i xs ≡ x ∷ rest
    → drop (i + 1) xs ≡ rest
drop-add-one zero [] x rest h = cc
drop-add-one zero (y ∷ xs) x rest h = cc
drop-add-one (suc i) [] x rest h = cc
drop-add-one (suc i) (y ∷ xs) x rest h =
    let e : suc i + 1 ≡ suc (i + 1) = omega arith in rw e (drop-add-one i xs x rest h)

module _ {ℓ} {A : Type ℓ} where
  -- What closestFreeAddress does with the child that it goes down to.
  unfoldable pub search_below : Tree A → Bits → ℕ → Run (Option Bytes)
  unfolding or_bottom_search
  search_below head seed i =
      closest_free_address head seed i >>= λ found. or_bottom_search found head seed i

  pub closest_free_address-node :
      (b : Bool) (d : Option A) (l r : Tree A) (seed rest : Bits) (i : ℕ)
      → (is_nil l && is_nil r) ≡ false
      → drop i seed ≡ b ∷ rest
      → closest_free_address (node d l r) seed i ≡ search_below (on_path b l r) seed (i + 1)
  unfolding closest_free_address search_below
  closest_free_address-node true d l r seed rest i inner e =
      rw (inner, closest_free_address, get_elem?-drop i seed true rest e)
  closest_free_address-node false d l r seed rest i inner e =
      rw (inner, closest_free_address, get_elem?-drop i seed false rest e)

  -- One level fails where the subtree on the other side is full.
  bottom_search-Full :
      (n : ℕ) (b : Bool) (d : Option A) (l r : Tree A) (seed rest : Bits) (i : ℕ)
      → Shape (suc n) (node d l r)
      → drop i seed ≡ b ∷ rest
      → Full n (off_path b l r)
      → bottom_search (node d l r) seed i ≡ ok none
  unfolding bottom_search search_left search_right
  bottom_search-Full n true d absent r seed rest i s e f = absurd f
  bottom_search-Full n true d (node d' l' r') r seed rest i s e f =
      rw (get_elem?-drop i seed true rest e, right_to_left_dfs-Full n (node d' l' r') seed i s.2 f)
  bottom_search-Full n false d l absent seed rest i s e f = absurd f
  bottom_search-Full n false d l (node d' l' r') seed rest i s e f = rw (
    s.1,
    get_elem?-drop i seed false rest e,
    left_to_right_dfs-Full n (node d' l' r') seed i s.3 f,
  )

  -- Below a node whose path has full subtrees beside it nothing is found.
  pub search_below-Full :
      (rest : Bits) (head : Tree A) (seed : Bits) (i : ℕ)
      → drop i seed ≡ rest
      → Shape (length rest) head
      → FullBeside rest head
      → search_below head seed i ≡ ok none
  unfolding search_below
  search_below-Full rest absent seed i e s f = absurd f
  search_below-Full [] (node d l r) seed i e s f =
      unfold closest_free_address bottom_search in ground arith
  search_below-Full (b ∷ rest) (node d l r) seed i e s f = rw (
    closest_free_address-node b d l r seed rest i s.1 e,
    search_below-Full rest (on_path b l r) seed (i + 1) (drop-add-one i seed b rest e)
        (Shape-on_path (length rest) b d l r s) f.1,
    bottom_search-Full (length rest) b d l r seed rest i s e f.0,
  )

  module _ (b : Bool) (d : Option A) (l r : Tree A) (seed rest : Bits) (i : ℕ)
      (s : Shape (suc (length rest)) (node d l r)) (e : drop i seed ≡ b ∷ rest)
      (f : FullBeside rest (on_path b l r)) where
    -- Where nothing is free further down, the level itself decides.
    search_below-bottom_search :
        search_below (node d l r) seed i ≡ bottom_search (node d l r) seed i
    unfolding search_below
    search_below-bottom_search = rw (
      closest_free_address-node b d l r seed rest i s.1 e,
      search_below-Full rest (on_path b l r) seed (i + 1) (drop-add-one i seed b rest e)
          (Shape-on_path (length rest) b d l r s) f,
    )

  -- A missing subtree beside the path: its path, and then the seed's bit to the end.
  pub search_below-absent :
      (b : Bool) (d : Option A) (l r : Tree A) (seed rest : Bits) (i : ℕ)
      → Shape (suc (length rest)) (node d l r)
      → drop i seed ≡ b ∷ rest
      → FullBeside rest (on_path b l r)
      → off_path b l r ≡ absent
      → search_below (node d l r) seed i
        ≡ ok (some (bit_to_byte (right_pad (set_bit seed i (not b)) (i + 1) b)))
  unfolding bottom_search search_left search_right
  search_below-absent true d l r seed rest i s e f gap = rw (
    search_below-bottom_search true d l r seed rest i s e f,
    s.1,
    bottom_search,
    get_elem?-drop i seed true rest e,
    gap,
    search_left,
  )
  search_below-absent false d l r seed rest i s e f gap = rw (
    search_below-bottom_search false d l r seed rest i s e f,
    s.1,
    bottom_search,
    get_elem?-drop i seed false rest e,
    gap,
    search_right,
  )

  -- A subtree beside the path that is there and not full: the seed's own path, padded with zeros
  -- from a position further down.
  pub search_below-not_Full :
      (b : Bool) (d : Option A) (l r : Tree A) (seed rest : Bits) (i : ℕ)
      → Shape (suc (length rest)) (node d l r)
      → drop i seed ≡ b ∷ rest
      → FullBeside rest (on_path b l r)
      → is_nil (off_path b l r) ≡ false
      → ¬ Full (length rest) (off_path b l r)
      → (found : Bits) × (search_below (node d l r) seed i ≡ ok (some (bit_to_byte found)))
        × PaddedFrom (i + 1) seed found
  unfolding bottom_search search_left search_right
  search_below-not_Full true d absent r seed rest i s e f there free = cc
  search_below-not_Full true d (node d' l' r') r seed rest i s e f there free =
      elim (right_to_left_dfs-node (length rest) d' l' r' seed i s.2) [
        | inl (found, q, padded) ↦ (
          found,
          rw (
            search_below-bottom_search true d (node d' l' r') r seed rest i s e f,
            get_elem?-drop i seed true rest e,
            q,
          ),
          padded,
        )
        | inr full ↦ absurd (free full)
      ]
  search_below-not_Full false d l absent seed rest i s e f there free = cc
  search_below-not_Full false d l (node d' l' r') seed rest i s e f there free =
      elim (left_to_right_dfs-node (length rest) d' l' r' seed i s.3) [
        | inl (found, q, padded) ↦ (
          found,
          rw (
            search_below-bottom_search false d l (node d' l' r') seed rest i s e f,
            s.1,
            bottom_search,
            get_elem?-drop i seed false rest e,
            q,
          ),
          padded,
        )
        | inr full ↦ absurd (free full)
      ]

  -- What is found below is what the level above returns.
  pub search_below-up :
      (b : Bool) (d : Option A) (l r : Tree A) (seed rest : Bits) (i : ℕ) (a : Bytes)
      → (is_nil l && is_nil r) ≡ false
      → drop i seed ≡ b ∷ rest
      → search_below (on_path b l r) seed (i + 1) ≡ ok (some a)
      → search_below (node d l r) seed i ≡ ok (some a)
  unfolding search_below
  search_below-up b d l r seed rest i a inner e found =
      rw (closest_free_address-node b d l r seed rest i inner e, found)
