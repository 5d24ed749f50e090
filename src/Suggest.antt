-- ===== src/Suggest.antt =====
-- ldrlib/db.go: SuggestAddress and the searches under it. A pair of a flag and an address is an
-- Option; an index out of the 32 bits and a method of a nil node panic.
pub mod Dfs
pub mod Search
pub mod Padding
pub mod Climb
pub mod Levels
pub mod Outcome
mod Examples
use ld_routing.Base.{
  ℕ, zero, suc, ◌+◌, Bool, true, false, ◌&&◌, Option, none, some, List, [], ◌∷◌, if◌then◌else◌,
  get_elem?,
}
use mathlib.Core.Option
use ld_routing.Base.Run.{Run, ok, err, panic, cannot_suggest, ◌>>=◌, or_panic}
use ld_routing.Base.Bytes.{Bytes}
use ld_routing.Wire.Bits.{Bits, byte_to_bit, bit_to_byte}
use ld_routing.Tree.{Tree, absent, node, is_nil}

-- `bits[i] = b`
abbrev pub set_bit : Bits → ℕ → Bool → Bits
set_bit [] i b = []
set_bit (x ∷ bits) zero b = b ∷ bits
set_bit (x ∷ bits) (suc i) b = x ∷ set_bit bits i b

-- The loop from `start` to the end of the array.
unfoldable pub right_pad : Bits → ℕ → Bool → Bits
right_pad [] start pad = []
right_pad (x ∷ bits) zero pad = pad ∷ right_pad bits zero pad
right_pad (x ∷ bits) (suc start) pad = x ∷ right_pad bits start pad

module _ {ℓ} {A : Type ℓ} where
  unfoldable pub left_to_right_dfs : Tree A → Bits → ℕ → Option Bits
  left_to_right_dfs absent bits position = some (right_pad bits position false)
  left_to_right_dfs (node d l r) bits position = elim (is_nil l && is_nil r) [
    | true ↦ none
    | false ↦ elim (left_to_right_dfs l bits (position + 1)) [
      | some found ↦ some found
      | none ↦ left_to_right_dfs r bits (position + 1)
    ]
  ]

  unfoldable pub right_to_left_dfs : Tree A → Bits → ℕ → Option Bits
  right_to_left_dfs absent bits position = some (right_pad bits position false)
  right_to_left_dfs (node d l r) bits position = elim (is_nil l && is_nil r) [
    | true ↦ none
    | false ↦ elim (right_to_left_dfs r bits (position + 1)) [
      | some found ↦ some found
      | none ↦ right_to_left_dfs l bits (position + 1)
    ]
  ]

  -- The branch of bottomSearch where the seed goes right.
  search_left : Tree A → Bits → ℕ → Option Bytes
  search_left absent seed position =
      some (bit_to_byte (right_pad (set_bit seed position false) (position + 1) true))
  search_left (node d l r) seed position =
      Option.map bit_to_byte (right_to_left_dfs (node d l r) seed position)

  -- The branch of bottomSearch where the seed goes left.
  search_right : Tree A → Bits → ℕ → Option Bytes
  search_right absent seed position =
      some (bit_to_byte (right_pad (set_bit seed position true) (position + 1) false))
  search_right (node d l r) seed position =
      Option.map bit_to_byte (left_to_right_dfs (node d l r) seed position)

  unfoldable pub bottom_search : Tree A → Bits → ℕ → Run (Option Bytes)
  unfolding search_left search_right
  bottom_search absent seed position = panic
  bottom_search (node d l r) seed position = if is_nil l && is_nil r then ok none else do
    b ← or_panic (get_elem? seed position)
    ok (if b then search_left l seed position else search_right r seed position)

  -- What closestFreeAddress goes on with once the recursion has returned.
  or_bottom_search : Option Bytes → Tree A → Bits → ℕ → Run (Option Bytes)
  or_bottom_search (some address) head seed position = ok (some address)
  or_bottom_search none head seed position = bottom_search head seed position

  unfoldable pub closest_free_address : Tree A → Bits → ℕ → Run (Option Bytes)
  unfolding or_bottom_search
  closest_free_address absent seed position = panic
  closest_free_address (node d l r) seed position = elim (is_nil l && is_nil r) [
    | true ↦ ok none
    | false ↦ or_panic (get_elem? seed position) >>= elim [
      | true ↦ do
        found ← closest_free_address r seed (position + 1)
        or_bottom_search found r seed (position + 1)
      | false ↦ do
        found ← closest_free_address l seed (position + 1)
        or_bottom_search found l seed (position + 1)
    ]
  ]

  unfoldable pub suggest_address : Tree A → Bytes → Run Bytes
  suggest_address tree seed_address = do
    found ← closest_free_address tree (byte_to_bit seed_address) 0
    elim found [ some address ↦ ok address | none ↦ err cannot_suggest ]
