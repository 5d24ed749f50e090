-- ===== src/Suggest/Levels.antt =====
-- The path that SuggestAddress of ldrlib/db.go comes to at the deepest level of the seed's path
-- beside which something is free (`Gap`). The seed's path turns off the root by its first bit `c`.
use ld_routing.Base.{
  ℕ, suc, ◌+◌, ◌-◌, ◌≤◌, ◌≡◌, refl, sym, ap, ◌∙◌, subst, Bool, true, false, not, Option, some, [],
  ◌∷◌, ◌++◌, arith, length, drop, replicate, length-append, drop-append-length,
}
use ld_routing.Base.Run.{ok}
use ld_routing.Base.Bytes.{Bytes, IsBytes}
use ld_routing.Wire.Bits.{
  Bits, byte_to_bit, bit_to_byte, byte_to_bit-bit_to_byte, length-byte_to_bit,
}
use ld_routing.Tree.{Tree, absent, node, is_registered}
use ld_routing.Tree.Laws.{present, is_registered-present}
use ld_routing.Tree.Shape.{Shape, IsRoot}
use ld_routing.Tree.Full.{Shape-root, FullBeside-Full, present-Full, on_path, off_path}
use ld_routing.Tree.Subtree.{Shape-subtree, present-append, Gap}
use ld_routing.Suggest.{set_bit, right_pad, suggest_address}
use ld_routing.Suggest.Search.{search_below, closest_free_address-node, drop-add-one}
use ld_routing.Suggest.Padding.{
  right_pad-zero, right_pad-append, set_bit-append, length-right_pad, length-replicate,
}
use ld_routing.Suggest.Climb.{inner_of_found, search_below-subtree}

module _ {ℓ} {A : Type ℓ} (d : Option A) (l r : Tree A) (seed : Bytes) (c : Bool) (path : Bits)
    (root : IsRoot 32 (node d l r)) (seed_bytes : IsBytes 4 seed)
    (bits : byte_to_bit seed ≡ c ∷ path) where
  pub length-path : length path ≡ 31
  length-path = omega (arith, ap length bits, length-byte_to_bit seed, seed_bytes.len)

  pub below_fits : Shape 31 (on_path c l r)
  below_fits = Shape-root 31 c d l r root

  -- What is found under the root is what is suggested.
  pub suggest_found :
      (a : Bytes)
      → search_below (on_path c l r) (byte_to_bit seed) 1 ≡ ok (some a)
      → suggest_address (node d l r) seed ≡ ok a
  unfolding suggest_address
  suggest_found a found = rw (
    closest_free_address-node c d l r (byte_to_bit seed) path 0
        (inner_of_found c l r (byte_to_bit seed) 1 a found) bits,
    found,
  )

  module _ (g : Gap path (on_path c l r)) where
    seed_split : byte_to_bit seed ≡ (c ∷ g.before) ++ (g.turn ∷ g.after)
    seed_split = bits ∙ ap (λ x. c ∷ x) g.split

    length_after : length g.before + suc (length g.after) ≡ 31
    length_after =
        omega (arith, length-path, ap length g.split, length-append g.before (g.turn ∷ g.after))

    pub turn_fits : Shape (suc (length g.after)) (node g.dat g.left g.right)
    turn_fits = subst (Shape (suc (length g.after))) g.at (
        Shape-subtree (suc (length g.after)) g.before (on_path c l r)
          (subst (λ n. Shape n (on_path c l r)) (sym length_after) below_fits))

    -- The seed's path at the level of the gap.
    pub drop_at : drop (1 + length g.before) (byte_to_bit seed) ≡ g.turn ∷ g.after
    drop_at =
        let e : 1 + length g.before ≡ length (c ∷ g.before) = omega arith in
        rw (e, seed_split)
          (drop-append-length (c ∷ g.before) (g.turn ∷ g.after) (length (c ∷ g.before)) refl)

    -- What is found at the gap is suggested.
    pub suggest_at :
        (a : Bytes)
        → search_below (node g.dat g.left g.right) (byte_to_bit seed) (1 + length g.before)
          ≡ ok (some a)
        → suggest_address (node d l r) seed ≡ ok a
    suggest_at a found = suggest_found a (
        search_below-subtree g.before (on_path c l r) (byte_to_bit seed) (g.turn ∷ g.after) 1 a
          (drop-add-one 0 (byte_to_bit seed) c (g.before ++ (g.turn ∷ g.after)) seed_split)
          (rw g.at found))

    -- A path that goes on from the gap's node in the tree.
    present_at :
        (more : Bits)
        → present ((c ∷ g.before) ++ more) (node d l r) ≡ present more (node g.dat g.left g.right)
    present_at more =
        present_through c ∙ present-append g.before more (on_path c l r) ∙ ap (present more) g.at
      where
        present_through :
            (b : Bool)
            → present (b ∷ (g.before ++ more)) (node d l r)
              ≡ present (g.before ++ more) (on_path b l r)
        present_through b = present-append (b ∷ []) (g.before ++ more) (node d l r)

    -- The address of a path, looked up.
    pub registered_at :
        (found : Bits)
        → length found ≡ 32
        → is_registered (byte_to_bit (bit_to_byte found)) (node d l r)
          ≡ ok (present found (node d l r))
    registered_at found e = rw (byte_to_bit-bit_to_byte found e) (is_registered-present found d l r)

    -- The path on the other side of the gap that is nearest to the seed's.
    abbrev pub nearest : Bits
    nearest = (c ∷ g.before) ++ (not g.turn ∷ replicate (length g.after) g.turn)

    pub nearest_padded :
        right_pad
          (set_bit (byte_to_bit seed) (1 + length g.before) (not g.turn))
          (1 + length g.before + 1)
          g.turn
        ≡ nearest
    unfolding right_pad
    nearest_padded = rw (
      seed_split,
      set_bit-append (c ∷ g.before) g.after g.turn (not g.turn) (1 + length g.before) (omega arith),
      right_pad-append (c ∷ g.before) (not g.turn ∷ g.after) (1 + length g.before + 1) 1 g.turn
          (omega arith),
      right_pad-zero g.after g.turn,
    )

    pub length-nearest : length nearest ≡ 32
    length-nearest = omega (
      arith,
      length_after,
      length-append (c ∷ g.before) (not g.turn ∷ replicate (length g.after) g.turn),
      length-replicate (length g.after) g.turn,
    )

    pub nearest_free :
        off_path g.turn g.left g.right ≡ absent → present nearest (node d l r) ≡ false
    unfolding present
    nearest_free gap =
        present_at (not g.turn ∷ replicate (length g.after) g.turn)
        ∙ beside g.turn g.left g.right gap
      where
        beside :
            (b : Bool) (x y : Tree A)
            → off_path b x y ≡ absent
            → present (not b ∷ replicate (length g.after) b) (node g.dat x y) ≡ false
        beside true x y e = rw e
        beside false x y e = rw e

    -- The path that a depth-first search suggests at the gap lies in the seed's own full subtree.
    pub padded_taken :
        (k : ℕ)
        → 1 + length g.before + 1 ≤ k
        → present (right_pad (byte_to_bit seed) k false) (node d l r) ≡ true
    unfolding right_pad
    padded_taken k low =
        let j = k - (length g.before + 2) in
        let tail = right_pad g.after j false in
        let inside =
          present-Full (length g.after) tail (on_path g.turn g.left g.right)
            (length-right_pad g.after j false)
            (FullBeside-Full g.after (on_path g.turn g.left g.right) g.deeper) in
        rw
          (
            seed_split,
            right_pad-append (c ∷ g.before) (g.turn ∷ g.after) k (suc j) false (omega arith),
          )
          (present_at (g.turn ∷ tail)
            ∙ present-append (g.turn ∷ []) tail (node g.dat g.left g.right)
            ∙ inside)
