-- ===== src/Suggest/Outcome.antt =====
-- What SuggestAddress of ldrlib/db.go returns for a registered seed. The seed's path turns off the
-- root by its first bit `c`; below it, either every subtree beside the path is full, or there is a
-- deepest one that is not (`Gap`).
use ld_routing.Base.{
  ◌+◌, ◌≡◌, refl, sym, ap, ◌∙◌, subst, ◌⊎◌, inl, inr, Bool, true, false, ◌&&◌, Option, [], ◌∷◌,
  arith, length,
}
use ld_routing.Base.Run.{ok, err, cannot_suggest}
use ld_routing.Base.Bytes.{Bytes, IsBytes}
use ld_routing.Wire.Bits.{Bits, byte_to_bit, bit_to_byte, length-byte_to_bit}
use ld_routing.Tree.{Tree, absent, node, is_nil, is_registered}
use ld_routing.Tree.Laws.{present, is_registered-present}
use ld_routing.Tree.Shape.{Shape, IsRoot}
use ld_routing.Tree.Full.{FullBeside, on_path, off_path}
use ld_routing.Tree.Subtree.{present-append, Gap, Gap-cases}
use ld_routing.Suggest.{suggest_address}
use ld_routing.Suggest.Search.{
  closest_free_address-node, drop-add-one, search_below-Full, search_below-absent,
  search_below-not_Full,
}
use ld_routing.Suggest.Padding.{length-right_pad}
use ld_routing.Suggest.Levels.{
  length-path, below_fits, turn_fits, drop_at, suggest_at, nearest, nearest_padded, length-nearest,
  nearest_free, registered_at, padded_taken,
}

ok-injective : {a b : Bool} → ok a ≡ ok b → a ≡ b
ok-injective h = cc

is_nil-cases {ℓ} : {A : Type ℓ} (t : Tree A) → (t ≡ absent) ⊎ (is_nil t ≡ false)
is_nil-cases absent = inl refl
is_nil-cases (node d l r) = inr refl

module _ {ℓ} {A : Type ℓ} where
  inner_of_FullBeside :
      (b : Bool) (path : Bits) (x y : Tree A)
      → FullBeside path (on_path b x y)
      → (is_nil x && is_nil y) ≡ false
  inner_of_FullBeside true path x absent f = absurd f
  inner_of_FullBeside true path absent (node e y z) f = refl
  inner_of_FullBeside true path (node e x x') (node e' y z) f = refl
  inner_of_FullBeside false path absent y f = absurd f
  inner_of_FullBeside false path (node e x x') y f = refl

module _ {ℓ} {A : Type ℓ} (d : Option A) (l r : Tree A) (seed : Bytes) (c : Bool) (path : Bits)
    (root : IsRoot 32 (node d l r)) (seed_bytes : IsBytes 4 seed)
    (bits : byte_to_bit seed ≡ c ∷ path) where
  module _ (g : Gap path (on_path c l r)) where
    -- In a tree with data at depth 32 only, where the deepest level below the root at which the subtree
    -- beside the seed's path is not full has no subtree there at all, the suggestion is the address that
    -- turns off the seed's path at that level and is nearest to the seed, and it is not registered.
    pub suggest_nearest :
        off_path g.turn g.left g.right ≡ absent
        → (suggest_address (node d l r) seed
            ≡ ok (bit_to_byte (nearest d l r seed c path root seed_bytes bits g)))
          × (is_registered
                (byte_to_bit (bit_to_byte (nearest d l r seed c path root seed_bytes bits g)))
                (node d l r)
              ≡ ok false)
    suggest_nearest gap = (
      suggest_at d l r seed c path root seed_bytes bits g
          (bit_to_byte (nearest d l r seed c path root seed_bytes bits g))
          (rw (nearest_padded d l r seed c path root seed_bytes bits g) at (
            search_below-absent g.turn g.dat g.left g.right (byte_to_bit seed) g.after
              (1 + length g.before) (turn_fits d l r seed c path root seed_bytes bits g)
              (drop_at d l r seed c path root seed_bytes bits g) g.deeper gap)),
      registered_at d l r seed c path root seed_bytes bits g
            (nearest d l r seed c path root seed_bytes bits g)
            (length-nearest d l r seed c path root seed_bytes bits g)
          ∙ ap ok (nearest_free d l r seed c path root seed_bytes bits g gap),
    )

    -- In a tree with data at depth 32 only, where the deepest level below the root at which the subtree
    -- beside the seed's path is not full has a subtree with addresses there, an address is suggested that
    -- is registered already.
    pub suggest_taken :
        is_nil (off_path g.turn g.left g.right) ≡ false
        → (a : Bytes) × (suggest_address (node d l r) seed ≡ ok a)
          × (is_registered (byte_to_bit a) (node d l r) ≡ ok true)
    suggest_taken there =
        let (found, e, (k, padded, low)) =
          search_below-not_Full g.turn g.dat g.left g.right (byte_to_bit seed) g.after
            (1 + length g.before) (turn_fits d l r seed c path root seed_bytes bits g)
            (drop_at d l r seed c path root seed_bytes bits g) g.deeper there g.free in
        let size : length found ≡ 32 = rw padded (
          length-right_pad (byte_to_bit seed) k false
          ∙ omega (arith, length-byte_to_bit seed, seed_bytes.len)) in
        let taken : present found (node d l r) ≡ true =
          rw padded (padded_taken d l r seed c path root seed_bytes bits g k low) in
        (
          bit_to_byte found,
          suggest_at d l r seed c path root seed_bytes bits g (bit_to_byte found) e,
          registered_at d l r seed c path root seed_bytes bits g found size ∙ ap ok taken,
        )

  -- In a tree with data at depth 32 only, where every subtree beside the seed's path below the root is
  -- full, SuggestAddress returns its error, whatever is free on the other side of the root.
  pub suggest_none :
      FullBeside path (on_path c l r) → suggest_address (node d l r) seed ≡ err cannot_suggest
  unfolding suggest_address
  suggest_none full = rw (
    closest_free_address-node c d l r (byte_to_bit seed) path 0
        (inner_of_FullBeside c path l r full) bits,
    search_below-Full path (on_path c l r) (byte_to_bit seed) 1
        (drop-add-one 0 (byte_to_bit seed) c path bits)
        (subst (λ n. Shape n (on_path c l r))
          (sym (length-path d l r seed c path root seed_bytes bits))
          (below_fits d l r seed c path root seed_bytes bits))
        full,
  )

-- In a tree with data at depth 32 only, the search from a registered seed of four bytes neither
-- panics nor ends the process: it returns an address or its error.
pub suggest_address-total {ℓ} :
    {A : Type ℓ} (d : Option A) (l r : Tree A) (seed : Bytes)
    → IsRoot 32 (node d l r)
    → IsBytes 4 seed
    → is_registered (byte_to_bit seed) (node d l r) ≡ ok true
    → ((a : Bytes) × (suggest_address (node d l r) seed ≡ ok a))
      ⊎ (suggest_address (node d l r) seed ≡ err cannot_suggest)
suggest_address-total {A = A} d l r seed root seed_bytes registered = go (byte_to_bit seed) refl
  where
    outcome :
        (c : Bool) (path : Bits)
        → byte_to_bit seed ≡ c ∷ path
        → FullBeside path (on_path c l r) ⊎ Gap path (on_path c l r)
        → ((a : Bytes) × (suggest_address (node d l r) seed ≡ ok a))
          ⊎ (suggest_address (node d l r) seed ≡ err cannot_suggest)
    outcome c path bits (inl full) = inr (suggest_none d l r seed c path root seed_bytes bits full)
    outcome c path bits (inr g) = elim (is_nil-cases (off_path g.turn g.left g.right)) [
      | inl gap ↦ inl (
        bit_to_byte (nearest d l r seed c path root seed_bytes bits g),
        (suggest_nearest d l r seed c path root seed_bytes bits g gap).0,
      )
      | inr there ↦
          let (a, e, _) = suggest_taken d l r seed c path root seed_bytes bits g there in inl (a, e)
    ]

    go :
        (bs : Bits)
        → byte_to_bit seed ≡ bs
        → ((a : Bytes) × (suggest_address (node d l r) seed ≡ ok a))
          ⊎ (suggest_address (node d l r) seed ≡ err cannot_suggest)
    go [] e = absurd (omega (arith, ap length e, length-byte_to_bit seed, seed_bytes.len))
    go (c ∷ path) e = outcome c path e (
        Gap-cases path (on_path c l r) (
          sym (present-append (c ∷ []) path (node d l r))
          ∙ ok-injective (rw (← is_registered-present (c ∷ path) d l r, ← e) registered)))
