-- ===== src/Base/Bytes/Cut.antt =====
-- Cutting a buffer at the ends of its fields.
use Prim.Native.Nat.{ℕ, ◌+◌, ◌-◌, ◌≤◌}
use mathlib.Core.Path.{◌≡◌, refl}
use mathlib.Core.Bool.{true, ◌&&◌}
use mathlib.Core.List.{List, [], ◌∷◌, ◌++◌, append-nil, append_assoc}
use native.Mathlib.Omega.{arith}
use ld_routing.Base.Tests.{leb}
use ld_routing.Base.Lists.{
  length, length-append, take-append-length, drop-append-length, drop-append_long,
}
use ld_routing.Base.Run.{ok}
use ld_routing.Base.Bytes.{Bytes, slice}

-- The cut of a buffer between `lo` and `hi`, when what stands before and after it is known.
pub slice-append :
    (lo hi : ℕ) (xs ys zs : Bytes)
    → length xs ≡ lo
    → length ys ≡ hi - lo
    → lo ≤ hi
    → slice lo hi (xs ++ (ys ++ zs)) ≡ ok ys
unfolding slice
slice-append lo hi xs ys zs hx hy h =
    let fits : (leb lo hi && leb hi (length (xs ++ (ys ++ zs)))) ≡ true =
      ground (arith, length-append xs (ys ++ zs), length-append ys zs) in
    rw (fits, drop-append-length xs (ys ++ zs) lo hx, take-append-length ys zs (hi - lo) hy)

-- A cut that starts past a prefix is a cut of what follows it.
pub slice-skip :
    (lo hi n : ℕ) (xs zs : Bytes)
    → length xs ≡ n
    → n ≤ lo
    → n ≤ hi
    → slice lo hi (xs ++ zs) ≡ slice (lo - n) (hi - n) zs
unfolding slice
slice-skip lo hi n xs zs hx hlo hhi =
    let test : (leb lo hi && leb hi (length (xs ++ zs)))
        ≡ (leb (lo - n) (hi - n) && leb (hi - n) (length zs)) =
      ground (arith, length-append xs zs) in
    let same_len : hi - n - (lo - n) ≡ hi - lo = omega arith in
    rw (test, same_len, drop-append_long n lo xs zs hx hlo)

-- The fields `xs` of a buffer, and what follows them.
abbrev pub joined : List Bytes → Bytes → Bytes
joined [] rest = rest
joined (x ∷ xs) rest = x ++ joined xs rest

abbrev pub total : List ℕ → ℕ
total [] = 0
total (n ∷ ns) = n + total ns

-- The fields `xs` have the sizes `ns`.
abbrev pub Sized : List ℕ → List Bytes → Type 0
Sized [] [] = Unit
Sized (n ∷ ns) (x ∷ xs) = (length x ≡ n) × Sized ns xs
Sized _ _ = ⊥

pub length-joined : (ns : List ℕ) (xs : List Bytes) → Sized ns xs → length (joined xs []) ≡ total ns
length-joined [] [] h = refl
length-joined [] (x ∷ xs) h = absurd h
length-joined (n ∷ ns) [] h = absurd h
length-joined (n ∷ ns) (x ∷ xs) h =
    omega (arith, length-append x (joined xs []), length-joined ns xs h.1)

pub joined-append : (xs : List Bytes) (rest : Bytes) → joined xs rest ≡ joined xs [] ++ rest
joined-append [] rest = refl
joined-append (x ∷ xs) rest = rw (joined-append xs rest, append_assoc)

-- The field `y` behind the fields `xs`, cut at its offsets.
pub slice-field :
    (ns : List ℕ) (xs : List Bytes) (n : ℕ) (y z : Bytes)
    → Sized ns xs
    → length y ≡ n
    → slice (total ns) (total ns + n) (joined xs (y ++ z)) ≡ ok y
slice-field ns xs n y z h e = rw (joined-append xs (y ++ z)) (
    slice-append (total ns) (total ns + n) (joined xs []) y z (length-joined ns xs h) (omega arith)
      (omega arith))

-- The last field of a buffer.
pub slice-last :
    (ns : List ℕ) (xs : List Bytes) (n : ℕ) (y : Bytes)
    → Sized ns xs
    → length y ≡ n
    → slice (total ns) (total ns + n) (joined xs y) ≡ ok y
slice-last ns xs n y h e = rw append-nil at (slice-field ns xs n y [] h e)
