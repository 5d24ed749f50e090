-- ===== src/Suggest/Examples.antt =====
-- The table of TestSuggestAddress in ldrlib/db_test.go.
use ld_routing.Base.{ℕ, ◌≡◌, refl, [], ◌∷◌}
use ld_routing.Base.Run.{ok}
use ld_routing.Base.Bytes.{Bytes}
use ld_routing.Wire.Bits.{byte_to_bit, bit_to_byte}
use ld_routing.Tree.{Tree, create_binary_tree, insert}
use ld_routing.Suggest.{
  right_pad, left_to_right_dfs, right_to_left_dfs, bottom_search, closest_free_address,
  suggest_address,
}

abbrev low : ℕ → Bytes
low n = 0 ∷ 0 ∷ 0 ∷ n ∷ []

tree_of : ℕ → ℕ → Tree ℕ
tree_of a b = insert (byte_to_bit (low b)) b (insert (byte_to_bit (low a)) a create_binary_tree)

suggest_table :
    (suggest_address (tree_of 1 2) (low 1) ≡ ok (low 0))
    × (suggest_address (tree_of 1 2) (low 2) ≡ ok (low 3))
    × (suggest_address (tree_of 2 3) (low 2) ≡ ok (low 1))
unfolding tree_of insert suggest_address closest_free_address bottom_search left_to_right_dfs
    right_to_left_dfs right_pad byte_to_bit bit_to_byte
suggest_table = (refl, refl, refl)
