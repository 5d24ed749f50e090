-- ===== src/Stack/Laws.antt =====
-- What the routing stack promises: the entries in the order of the puts, each removed once, and the
-- recent ones where the heights fall from the front to the back.
use ld_routing.Base.{
  ℕ, ◌≤◌, ◌<◌, ◌≡◌, ◌≢◌, ◌⊎◌, inl, inr, refl, sym, ◌∙◌, subst, List, [], ◌∷◌, arith, ltb, leb, ◌==◌,
  ==_iff, if◌then◌else◌, All, Bool-cases,
}
use ld_routing.Base.Run.{ok}
use ld_routing.Wire.Types.{Ref, RoutingEntry}
use ld_routing.Stack.{RoutingStack, peek_from_block, put, pop, remove}

-- The entries of a stack that are at least as recent as a block.
unfoldable pub recent : (Ref → RoutingEntry) → ℕ → RoutingStack → List Ref
recent cells from_block [] = []
recent cells from_block (r ∷ s) =
    let rest = recent cells from_block s in
    if leb from_block (cells r).height then r ∷ rest else rest

-- The heights do not rise from the front to the back.
abbrev pub IsFalling : (Ref → RoutingEntry) → RoutingStack → Type 0
IsFalling cells [] = Unit
IsFalling cells (r ∷ s) = All (λ q. (cells q).height ≤ (cells r).height) s × IsFalling cells s

recent-old :
    (cells : Ref → RoutingEntry) (from_block h : ℕ) (s : RoutingStack)
    → h < from_block
    → All (λ q. (cells q).height ≤ h) s
    → recent cells from_block s ≡ []
unfolding recent
recent-old cells from_block h [] old below = refl
recent-old cells from_block h (r ∷ s) old below =
    ground (arith, below.0, recent-old cells from_block h s old below.1)

-- On a stack with falling heights the loop that stops at the first old entry returns every entry
-- that is recent enough.
pub peek_from_block-recent :
    (cells : Ref → RoutingEntry) (from_block : ℕ) (s : RoutingStack)
    → IsFalling cells s
    → peek_from_block cells from_block s ≡ recent cells from_block s
unfolding peek_from_block recent
peek_from_block-recent cells from_block [] falling = refl
peek_from_block-recent cells from_block (r ∷ s) falling =
    elim (Bool-cases (ltb (cells r).height from_block)) [
      | inl old ↦
          ground (arith, recent-old cells from_block (cells r).height s (ground arith) falling.0)
      | inr new ↦ ground (arith, peek_from_block-recent cells from_block s falling.1)
    ]

-- From the genesis block on, the loop returns the whole stack.
pub peek_from_block-genesis :
    (cells : Ref → RoutingEntry) (s : RoutingStack) → peek_from_block cells 0 s ≡ s
unfolding peek_from_block
peek_from_block-genesis cells [] = refl
peek_from_block-genesis cells (r ∷ s) = ground (arith, peek_from_block-genesis cells s)

abbrev pub Member : Ref → RoutingStack → Type 0
Member r [] = ⊥
Member r (x ∷ s) = (r ≡ x) ⊎ Member r s

-- No entry stands twice.
abbrev pub Distinct : RoutingStack → Type 0
Distinct [] = Unit
Distinct (x ∷ s) = (¬ Member x s) × Distinct s

-- The stack after a removal: the same entries but for the removed one.
pub record Without (entry : Ref) (before after : RoutingStack) : Type 0 where
  pub kept : (r : Ref) → Member r before → r ≢ entry → Member r after
  pub left : (r : Ref) → Member r after → Member r before × (r ≢ entry)
  pub distinct : Distinct after

-- An entry of a stack without repetitions is removed, and only it.
pub remove-Without :
    (entry : Ref) (s : RoutingStack)
    → Distinct s
    → Member entry s
    → (after : RoutingStack) × (remove entry s ≡ ok after) × Without entry s after
unfolding remove
remove-Without entry [] d m = absurd m
remove-Without entry (r ∷ s) d m = elim (Bool-cases (r == entry)) [
  | inl same ↦
      let e : r ≡ entry = (==_iff r entry).0 same in
      (
        s,
        rw same,
        record {
          kept = λ q n ne. elim n [ inl p ↦ absurd (ne (p ∙ e)) | inr k ↦ k ];
          left = λ q k. (inr k, λ p. d.0 (subst (λ x. Member x s) (p ∙ sym e) k));
          distinct = d.1;
        },
      )
  | inr other ↦
      let ne : ¬ (r ≡ entry) = λ p. cc ((==_iff r entry).1 p) in
      let deep : Member entry s = elim m [ inl p ↦ absurd (ne (sym p)) | inr k ↦ k ] in
      let (after, e, w) = remove-Without entry s d.1 deep in
      (
        r ∷ after,
        rw (other, e),
        record {
          kept = λ q n nq. elim n [ inl p ↦ inl p | inr k ↦ inr (w.kept q k nq) ];
          left = λ q k. elim k [
            | inl p ↦ (inl p, λ pe. ne (sym p ∙ pe))
            | inr k' ↦ (inr (w.left q k').0, (w.left q k').1)
          ];
          distinct = (λ k. d.0 (w.left r k).0, w.distinct);
        },
      )
]

-- What is put on the stack is what is popped.
pub pop-put : (entry : Ref) (s : RoutingStack) → pop (put entry s) ≡ ok (entry, s)
unfolding pop put
pop-put entry s = refl
