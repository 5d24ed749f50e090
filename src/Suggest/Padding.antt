-- ===== src/Suggest/Padding.antt =====
-- rightPadBitAddress and the write to one bit, at the end of a known prefix.
use ld_routing.Base.{
  ℕ, zero, suc, ◌+◌, ◌≡◌, refl, ap, Bool, [], ◌∷◌, ◌++◌, arith, length, replicate,
}
use ld_routing.Wire.Bits.{Bits}
use ld_routing.Suggest.{set_bit, right_pad}

pub right_pad-zero : (bits : Bits) (b : Bool) → right_pad bits 0 b ≡ replicate (length bits) b
unfolding right_pad
right_pad-zero [] b = refl
right_pad-zero (x ∷ bits) b = ap (λ t. b ∷ t) (right_pad-zero bits b)

pub right_pad-append :
    (before more : Bits) (i k : ℕ) (pad : Bool)
    → i ≡ length before + k
    → right_pad (before ++ more) i pad ≡ before ++ right_pad more k pad
unfolding right_pad
right_pad-append [] more i k pad e = let e' : i ≡ k = omega arith in rw e'
right_pad-append (x ∷ before) more zero k pad e = absurd (omega arith)
right_pad-append (x ∷ before) more (suc i) k pad e =
    ap (λ t. x ∷ t) (right_pad-append before more i k pad (omega arith))

pub set_bit-append :
    (before rest : Bits) (x y : Bool) (i : ℕ)
    → i ≡ length before
    → set_bit (before ++ (x ∷ rest)) i y ≡ before ++ (y ∷ rest)
set_bit-append [] rest x y zero e = refl
set_bit-append [] rest x y (suc i) e = absurd (omega arith)
set_bit-append (z ∷ before) rest x y zero e = absurd (omega arith)
set_bit-append (z ∷ before) rest x y (suc i) e =
    ap (λ t. z ∷ t) (set_bit-append before rest x y i (omega arith))

pub length-right_pad :
    (bits : Bits) (i : ℕ) (pad : Bool) → length (right_pad bits i pad) ≡ length bits
unfolding right_pad
length-right_pad [] i pad = refl
length-right_pad (x ∷ bits) zero pad = ap suc (length-right_pad bits zero pad)
length-right_pad (x ∷ bits) (suc i) pad = ap suc (length-right_pad bits i pad)

pub length-replicate {ℓ} : {A : Type ℓ} (n : ℕ) (a : A) → length (replicate n a) ≡ n
length-replicate zero a = refl
length-replicate (suc n) a = ap suc (length-replicate n a)
