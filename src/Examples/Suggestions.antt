-- ===== src/Examples/Suggestions.antt =====
-- SuggestAddress of ldrlib/db.go at concrete trees.
use ld_routing.Base.{
  ℕ, zero, suc, ◌+◌, ◌<◌, ap, ◌≡◌, refl, ◌⊎◌, true, false, none, some, [], ◌∷◌, ◌++◌, replicate,
  arith, ◌&&◌,
}
use ld_routing.Base.Run.{ok, err, cannot_suggest}
use ld_routing.Base.Bytes.{Bytes, IsBytes}
use ld_routing.Wire.Bits.{Bits, byte_to_bit, bit_to_byte}
use ld_routing.Tree.{Tree, absent, node, is_nil, child, is_registered}
use ld_routing.Tree.Shape.{Shape, IsRoot}
use ld_routing.Tree.Full.{Full, FullBeside}
use ld_routing.Tree.Subtree.{Gap}
use ld_routing.Suggest.{suggest_address}
use ld_routing.Suggest.Padding.{length-replicate}
use ld_routing.Suggest.Outcome.{suggest_nearest, suggest_taken, suggest_none, suggest_address-total}

abbrev low : ℕ → Bytes
low n = 0 ∷ 0 ∷ 0 ∷ n ∷ []

low-IsBytes : (n : ℕ) → n < 256 → IsBytes 4 (low n)
low-IsBytes n h = record { len = refl; each = (omega arith, (omega arith, (omega arith, (h, tt)))) }

abbrev leaf : ℕ → Tree ℕ
leaf n = node (some n) absent absent

-- `n` levels to the left above a subtree.
abbrev chain : ℕ → Tree ℕ → Tree ℕ
chain zero t = t
chain (suc n) t = node none (chain n t) absent

chain-is_nil : (n : ℕ) (t : Tree ℕ) → is_nil t ≡ false → is_nil (chain n t) ≡ false
chain-is_nil zero t h = h
chain-is_nil (suc n) t h = refl

chain-Shape : (n : ℕ) (t : Tree ℕ) → is_nil t ≡ false → Shape 2 t → Shape (n + 2) (chain n t)
chain-Shape zero t h s = s
chain-Shape (suc n) t h s =
    let e : suc n + 2 ≡ suc (n + 2) = omega arith in
    rw e (refl, ap (λ b. b && true) (chain-is_nil n t h), chain-Shape n t h s, tt)

-- The addresses 0.0.0.1 and 0.0.0.2, from two levels above.
abbrev two : Tree ℕ
two = node none (node none absent (leaf 1)) (node none (leaf 2) absent)

two-Shape : Shape 2 two
two-Shape = (refl, refl, (refl, refl, tt, (refl, refl, refl)), (refl, refl, (refl, refl, refl), tt))

two-IsRoot : IsRoot 32 (node none (chain 29 two) absent)
two-IsRoot = (refl, chain-Shape 29 two refl two-Shape, tt)

abbrev seed_path : Bits
seed_path = replicate 29 false ++ (true ∷ false ∷ [])

gap : Gap seed_path (chain 29 two)
gap = record {
  before = replicate 29 false ++ (true ∷ []);
  turn = false;
  after = [];
  dat = none;
  left = leaf 2;
  right = absent;
  split = refl;
  at = refl;
  deeper = tt;
  free = λ f. f;
}

suggest_nearest_example :
    (suggest_address (node none (chain 29 two) absent) (low 2) ≡ ok (low 3))
    × (is_registered (byte_to_bit (low 3)) (node none (chain 29 two) absent) ≡ ok false)
unfolding gap byte_to_bit bit_to_byte
suggest_nearest_example =
    suggest_nearest none (chain 29 two) absent (low 2) false seed_path two-IsRoot
      (low-IsBytes 2 (omega arith)) refl gap refl

suggest_address-total_example :
    ((a : Bytes) × (suggest_address (node none (chain 29 two) absent) (low 2) ≡ ok a))
    ⊎ (suggest_address (node none (chain 29 two) absent) (low 2) ≡ err cannot_suggest)
unfolding is_registered byte_to_bit child
suggest_address-total_example =
    suggest_address-total none (chain 29 two) absent (low 2) two-IsRoot
      (low-IsBytes 2 (omega arith)) refl

-- The addresses 0.0.0.0, 0.0.0.1 and 0.0.0.2.
abbrev three : Tree ℕ
three = node none (node none (leaf 0) (leaf 1)) (node none (leaf 2) absent)

three-IsRoot : IsRoot 32 (node none (chain 29 three) absent)
three-IsRoot = (
  refl,
  chain-Shape 29 three refl (
    refl,
    refl,
    (refl, refl, (refl, refl, refl), (refl, refl, refl)),
    (refl, refl, (refl, refl, refl), tt),
  ),
  tt,
)

gap_three : Gap (replicate 31 false) (chain 29 three)
gap_three = record {
  before = replicate 29 false;
  turn = false;
  after = false ∷ [];
  dat = none;
  left = node none (leaf 0) (leaf 1);
  right = node none (leaf 2) absent;
  split = refl;
  at = refl;
  deeper = (tt, tt);
  free = λ f. f.1;
}

suggest_taken_example :
    (a : Bytes) × (suggest_address (node none (chain 29 three) absent) (low 0) ≡ ok a)
    × (is_registered (byte_to_bit a) (node none (chain 29 three) absent) ≡ ok true)
unfolding gap_three byte_to_bit
suggest_taken_example =
    suggest_taken none (chain 29 three) absent (low 0) false (replicate 31 false) three-IsRoot
      (low-IsBytes 0 (omega arith)) refl gap_three refl

-- A subtree with every address.
full : ℕ → Tree ℕ
full zero = leaf 0
full (suc n) = node none (full n) (full n)

full-is_nil : (n : ℕ) → is_nil (full n) ≡ false
unfolding full
full-is_nil zero = refl
full-is_nil (suc n) = refl

full-Shape : (n : ℕ) → Shape n (full n)
unfolding full
full-Shape zero = (refl, refl, refl)
full-Shape (suc n) = (refl, ap (λ b. b && b) (full-is_nil n), full-Shape n, full-Shape n)

full-Full : (n : ℕ) → Full n (full n)
unfolding full
full-Full zero = tt
full-Full (suc n) = (full-Full n, full-Full n)

full-FullBeside : (n : ℕ) → FullBeside (replicate n false) (full n)
unfolding full
full-FullBeside zero = tt
full-FullBeside (suc n) = (rw (length-replicate n false) (full-Full n), full-FullBeside n)

suggest_none_example : suggest_address (node none (full 31) absent) (low 0) ≡ err cannot_suggest
unfolding byte_to_bit
suggest_none_example =
    suggest_none none (full 31) absent (low 0) false (replicate 31 false) (refl, full-Shape 31, tt)
      (low-IsBytes 0 (omega arith)) refl (full-FullBeside 31)
