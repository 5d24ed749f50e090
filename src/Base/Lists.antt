-- ===== src/Base/Lists.antt =====
-- Lists measured and cut by native numbers, under the library's names.
use Prim.Native.Nat.{ℕ, zero, suc, ◌+◌, ◌-◌, ◌≤◌}
use mathlib.Core.Path.{◌≡◌, refl, ap}
use mathlib.Core.List.{List, [], ◌∷◌, ◌++◌}
use mathlib.Core.Option.{Option, none, some}
use mathlib.Core.Logic.{◌⊎◌}
use native.Mathlib.Omega.{arith}

module _ {ℓ} {A : Type ℓ} where
  abbrev pub length : List A → ℕ
  length [] = 0
  length (x ∷ xs) = suc (length xs)

  abbrev pub take : ℕ → List A → List A
  take zero xs = []
  take (suc n) [] = []
  take (suc n) (x ∷ xs) = x ∷ take n xs

  abbrev pub drop : ℕ → List A → List A
  drop zero xs = xs
  drop (suc n) [] = []
  drop (suc n) (x ∷ xs) = drop n xs

  abbrev pub replicate : ℕ → A → List A
  replicate zero a = []
  replicate (suc n) a = a ∷ replicate n a

  abbrev pub get_elem? : List A → ℕ → Option A
  get_elem? [] i = none
  get_elem? (x ∷ xs) zero = some x
  get_elem? (x ∷ xs) (suc i) = get_elem? xs i

  -- every element satisfies `P`
  abbrev pub All {κ} : (A → Type κ) → List A → Type κ
  All P [] = Unit
  All P (x ∷ xs) = P x × All P xs

  -- some element satisfies `P`
  abbrev pub SomeOf : (A → Type 0) → List A → Type 0
  SomeOf P [] = ⊥
  SomeOf P (x ∷ xs) = P x ⊎ SomeOf P xs

module _ {ℓ} {A : Type ℓ} where
  pub length-append : (xs ys : List A) → length (xs ++ ys) ≡ length xs + length ys
  length-append [] ys = omega arith
  length-append (x ∷ xs) ys = omega (arith, length-append xs ys)

  pub take-append-length : (xs ys : List A) (n : ℕ) → length xs ≡ n → take n (xs ++ ys) ≡ xs
  take-append-length [] ys zero h = refl
  take-append-length [] ys (suc n) h = absurd (omega arith)
  take-append-length (x ∷ xs) ys zero h = absurd (omega arith)
  take-append-length (x ∷ xs) ys (suc n) h =
      ap (λ t. x ∷ t) (take-append-length xs ys n (omega arith))

  pub drop-append-length : (xs ys : List A) (n : ℕ) → length xs ≡ n → drop n (xs ++ ys) ≡ ys
  drop-append-length [] ys zero h = refl
  drop-append-length [] ys (suc n) h = absurd (omega arith)
  drop-append-length (x ∷ xs) ys zero h = absurd (omega arith)
  drop-append-length (x ∷ xs) ys (suc n) h = drop-append-length xs ys n (omega arith)

  pub drop-append_long :
      (n m : ℕ) (xs ys : List A) → length xs ≡ n → n ≤ m → drop m (xs ++ ys) ≡ drop (m - n) ys
  drop-append_long zero m [] ys h k = let e : m - 0 ≡ m = omega arith in rw e
  drop-append_long (suc n) m [] ys h k = absurd (omega arith)
  drop-append_long zero m (x ∷ xs) ys h k = absurd (omega arith)
  drop-append_long (suc n) zero (x ∷ xs) ys h k = absurd (omega arith)
  drop-append_long (suc n) (suc m) (x ∷ xs) ys h k =
      let e : suc m - suc n ≡ m - n = omega arith in
      rw e (drop-append_long n m xs ys (omega arith) (omega arith))

  pub length-take : (n : ℕ) (xs : List A) → n ≤ length xs → length (take n xs) ≡ n
  length-take zero xs h = refl
  length-take (suc n) [] h = absurd (omega arith)
  length-take (suc n) (x ∷ xs) h = omega (arith, length-take n xs)

  pub length-drop : (n : ℕ) (xs : List A) → length (drop n xs) ≡ length xs - n
  length-drop zero xs = omega arith
  length-drop (suc n) [] = omega arith
  length-drop (suc n) (x ∷ xs) = omega (arith, length-drop n xs)

  pub take-append-drop : (n : ℕ) (xs : List A) → take n xs ++ drop n xs ≡ xs
  take-append-drop zero xs = refl
  take-append-drop (suc n) [] = refl
  take-append-drop (suc n) (x ∷ xs) = ap (λ t. x ∷ t) (take-append-drop n xs)

  pub All-take {κ} : (P : A → Type κ) (n : ℕ) (xs : List A) → All P xs → All P (take n xs)
  All-take P zero xs h = tt
  All-take P (suc n) [] h = tt
  All-take P (suc n) (x ∷ xs) h = (h.0, All-take P n xs h.1)

  pub All-drop {κ} : (P : A → Type κ) (n : ℕ) (xs : List A) → All P xs → All P (drop n xs)
  All-drop P zero xs h = h
  All-drop P (suc n) [] h = tt
  All-drop P (suc n) (x ∷ xs) h = All-drop P n xs h.1
