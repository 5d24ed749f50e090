-- ===== src/Bitcoin/Funding.antt =====
-- The choice of the input in BroadcastNewAddressTx of ldrlib/bitcoin.go.
use ld_routing.Base.{
  ◌≡◌, refl, ap, ◌⊎◌, inl, inr, Bool, true, false, List, [], ◌∷◌, ◌++◌, All, Bool-cases,
}
use ld_routing.Base.Int.{ℤ, pos, ltb_ℤ}
use ld_routing.Bitcoin.{Unspent, outlay, less_outlay, choose_unspent}

-- Whether an output pays for a registration.
abbrev pub pays : Unspent → Bool
pays u = ltb_ℤ (pos outlay) u.amount_sats

abbrev pub last : Unspent → List Unspent → Unspent
last u [] = u
last u (next ∷ us) = last next us

-- The first output that pays, and what it leaves.
pub record FirstThatPays (outs : List Unspent) (result : Unspent × ℤ) : Type 0 where
  pub before : List Unspent
  pub after : List Unspent
  pub split : outs ≡ before ++ (result.0 ∷ after)
  pub too_small : All (λ u. pays u ≡ false) before
  pub enough : pays result.0 ≡ true
  pub change : result.1 ≡ less_outlay result.0.amount_sats

-- No output pays, and the last one is taken with no change.
pub record NonePays (u : Unspent) (us : List Unspent) (result : Unspent × ℤ) : Type 0 where
  pub too_small : All (λ v. pays v ≡ false) (u ∷ us)
  pub taken : result ≡ (last u us, pos 0)

-- The loop takes the first output that pays for the registration, with what it leaves as the
-- change; where none pays, it goes on with the last one and a change of zero.
pub choose_unspent-cases :
    (u : Unspent) (us : List Unspent)
    → FirstThatPays (u ∷ us) (choose_unspent u us) ⊎ NonePays u us (choose_unspent u us)
unfolding choose_unspent
choose_unspent-cases u [] = elim (Bool-cases (pays u)) [
  | inl e ↦ rw e (
      inl (record {
        before = [];
        after = [];
        split = refl;
        too_small = tt;
        enough = e;
        change = refl;
      }))
  | inr e ↦ rw e (inr (record { too_small = (e, tt); taken = refl }))
]
choose_unspent-cases u (next ∷ us) = elim (Bool-cases (pays u)) [
  | inl e ↦ rw e (
      inl (record {
        before = [];
        after = next ∷ us;
        split = refl;
        too_small = tt;
        enough = e;
        change = refl;
      }))
  | inr e ↦ rw e (elim (choose_unspent-cases next us) [
    | inl f ↦ inl (record {
      before = u ∷ f.before;
      after = f.after;
      split = ap (λ t. u ∷ t) f.split;
      too_small = (e, f.too_small);
      enough = f.enough;
      change = f.change;
    })
    | inr n ↦ inr (record { too_small = (e, n.too_small); taken = n.taken })
  ])
]
