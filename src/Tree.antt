-- ===== src/Tree.antt =====
-- ldrlib/binaryTree.go, and the walks along the 32 bits of an address in ldrlib/db.go. A node is
-- never moved or removed, so a pointer to one is the path that leads to it.
pub mod Laws
pub mod Shape
pub mod Full
pub mod Subtree
use ld_routing.Base.{Bool, true, false, ◌&&◌, Option, none, some, List, [], ◌∷◌, if◌then◌else◌}
use ld_routing.Base.Run.{Run, ok, panic, ◌>>=◌, or_panic}
use ld_routing.Wire.Bits.{Bits}

-- `*node`: nil, or the data and the two children.
pub data Tree {ℓ} (A : Type ℓ) : Type ℓ where
  absent : Tree A
  node : Option A → Tree A → Tree A → Tree A

module _ {ℓ} {A : Type ℓ} where
  abbrev pub is_nil : Tree A → Bool
  is_nil absent = true
  is_nil (node d l r) = false

  abbrev pub create_binary_tree : Tree A
  create_binary_tree = node none absent absent

  unfoldable pub left_child : Tree A → Run (Tree A)
  left_child absent = panic
  left_child (node d l r) = ok l

  unfoldable pub right_child : Tree A → Run (Tree A)
  right_child absent = panic
  right_child (node d l r) = ok r

  -- `head.getData().(*addressInfo)`: the type assertion panics where no data was saved.
  unfoldable pub get_data : Tree A → Run A
  get_data absent = panic
  get_data (node d l r) = or_panic d

  -- One step of a walk.
  unfoldable pub child : Bool → Tree A → Run (Tree A)
  unfolding left_child right_child
  child b t = if b then right_child t else left_child t

  -- The loop of getRoutingEntry, addRoutingEntryToDB, getPeerConn and addPeerConnToDB.
  unfoldable pub walk : Bits → Tree A → Run (Tree A)
  walk [] t = ok t
  walk (b ∷ bits) t = do head ← child b t; walk bits head

  -- The loop of IsAddressRegistered.
  unfoldable pub is_registered : Bits → Tree A → Run Bool
  is_registered [] t = ok true
  is_registered (b ∷ bits) t = do
    head ← child b t
    if is_nil head then ok false else is_registered bits head

  -- The loop of GetAddressNode, which returns early at a missing child.
  unfoldable pub find_data : Bits → Tree A → Run (Option A)
  find_data [] t = do v ← get_data t; ok (some v)
  find_data (b ∷ bits) t = do head ← child b t; if is_nil head then ok none else find_data bits head

  -- The loop of addAddressToDB with its saveData: a missing child is created on the way.
  unfoldable pub insert : Bits → A → Tree A → Tree A
  insert [] v absent = node (some v) absent absent
  insert [] v (node d l r) = node (some v) l r
  insert (true ∷ bits) v absent = node none absent (insert bits v absent)
  insert (false ∷ bits) v absent = node none (insert bits v absent) absent
  insert (true ∷ bits) v (node d l r) = node d l (insert bits v r)
  insert (false ∷ bits) v (node d l r) = node d (insert bits v l) r

  -- A write through the data pointer of the node at a path.
  unfoldable pub modify : Bits → (A → A) → Tree A → Tree A
  modify bits f absent = absent
  modify [] f (node none l r) = node none l r
  modify [] f (node (some v) l r) = node (some (f v)) l r
  modify (true ∷ bits) f (node d l r) = node d l (modify bits f r)
  modify (false ∷ bits) f (node d l r) = node d (modify bits f l) r
