-- ===== src/Stack.antt =====
-- ldrlib/routingStack.go: a list of pointers to routing entries, the front first. `cells` is what
-- the pointers point to.
pub mod Laws
use ld_routing.Base.{ℕ, Bool, true, false, List, [], ◌∷◌, ltb, ◌==◌, if◌then◌else◌}
use ld_routing.Base.Run.{Run, ok, panic, ◌>>=◌}
use ld_routing.Wire.Types.{Ref, RoutingEntry}

abbrev pub RoutingStack : Type 0
RoutingStack = List Ref

abbrev pub create_routing_stack : RoutingStack
create_routing_stack = []

unfoldable pub empty : RoutingStack → Bool
empty [] = true
empty (r ∷ s) = false

-- Front() of an empty list is nil, and its Value panics.
unfoldable pub peek : RoutingStack → Run Ref
peek [] = panic
peek (r ∷ s) = ok r

unfoldable pub peek_from_block : (Ref → RoutingEntry) → ℕ → RoutingStack → List Ref
peek_from_block cells from_block [] = []
peek_from_block cells from_block (r ∷ s) =
    if ltb (cells r).height from_block then [] else r ∷ peek_from_block cells from_block s

unfoldable pub put : Ref → RoutingStack → RoutingStack
put entry s = entry ∷ s

unfoldable pub pop : RoutingStack → Run (Ref × RoutingStack)
pop [] = panic
pop (r ∷ s) = ok (r, s)

-- Remove(nil) panics where the entry is not in the list.
unfoldable pub remove : Ref → RoutingStack → Run RoutingStack
remove entry [] = panic
remove entry (r ∷ s) = if r == entry then ok s else do rest ← remove entry s; ok (r ∷ rest)
