-- ===== src/Suggest/Climb.antt =====
-- From the level that decides up to the root.
use ld_routing.Base.{
  ℕ, suc, ◌+◌, ◌≡◌, refl, Bool, true, false, ◌&&◌, some, [], ◌∷◌, ◌++◌, arith, length, drop,
}
use ld_routing.Base.Run.{ok, panic}
use ld_routing.Base.Bytes.{Bytes}
use ld_routing.Wire.Bits.{Bits}
use ld_routing.Tree.{Tree, absent, node, is_nil}
use ld_routing.Tree.Full.{on_path}
use ld_routing.Tree.Subtree.{subtree}
use ld_routing.Suggest.{closest_free_address}
use ld_routing.Suggest.Search.{search_below, search_below-up, drop-add-one}

module _ {ℓ} {A : Type ℓ} where
  search_below-nil_panics :
      (t : Tree A) (seed : Bits) (i : ℕ) → is_nil t ≡ true → search_below t seed i ≡ panic
  unfolding search_below closest_free_address
  search_below-nil_panics absent seed i h = refl
  search_below-nil_panics (node d l r) seed i h = cc

  -- A search that finds something stands at a node.
  pub inner_of_found :
      (b : Bool) (l r : Tree A) (seed : Bits) (i : ℕ) (a : Bytes)
      → search_below (on_path b l r) seed i ≡ ok (some a)
      → (is_nil l && is_nil r) ≡ false
  inner_of_found true l absent seed i a h = cc (search_below-nil_panics absent seed i refl)
  inner_of_found true absent (node d' l' r') seed i a h = refl
  inner_of_found true (node d l'' r'') (node d' l' r') seed i a h = refl
  inner_of_found false absent r seed i a h = cc (search_below-nil_panics absent seed i refl)
  inner_of_found false (node d' l' r') r seed i a h = refl

  -- What is found at the end of a path is found from its start.
  pub search_below-subtree :
      (before : Bits) (t : Tree A) (seed after : Bits) (i : ℕ) (a : Bytes)
      → drop i seed ≡ before ++ after
      → search_below (subtree before t) seed (i + length before) ≡ ok (some a)
      → search_below t seed i ≡ ok (some a)
  search_below-subtree [] t seed after i a e found =
      let at : i + 0 ≡ i = omega arith in rw at at found
  search_below-subtree (b ∷ before) absent seed after i a e found =
      cc (search_below-nil_panics absent seed (i + suc (length before)) refl)
  search_below-subtree (b ∷ before) (node d l r) seed after i a e found =
      let step : i + suc (length before) ≡ i + 1 + length before = omega arith in
      let below =
        search_below-subtree before (on_path b l r) seed after (i + 1) a
          (drop-add-one i seed b (before ++ after) e) (rw step at found) in
      search_below-up b d l r seed (before ++ after) i a (inner_of_found b l r seed (i + 1) a below)
        e below
