-- ===== src/Peer/Sequence/Count.antt =====
-- incrementSeqNumber of ldrlib/crypto.go counts: the sequence number is a big-endian integer.
use ld_routing.Base.{
  ℕ, suc, ◌+◌, ◌*◌, ◌%◌, ◌^◌, ◌<◌, ◌≡◌, refl, sym, ◌∙◌, ap, ap₂, ◌++◌, append-nil, ◌⊎◌, inl, inr,
  [], ◌∷◌, All, Bool-cases, ltb, if◌then◌else◌, length, get_elem?, arith,
}
use ld_routing.Base.Bytes.{Bytes, IsByte, IsBytes, le, be, be_from}
use ld_routing.Peer.Sequence.{set, increment_from, increment_seq_number}

-- The digits of `ds`, the last one first, in front of a rest.
rev : Bytes → Bytes → Bytes
rev [] rest = rest
rev (v ∷ ds) rest = rev ds (v ∷ rest)

-- The increment of a little-endian number.
next : Bytes → Bytes
next [] = []
next (v ∷ ds) = let rest = next ds in if ltb v 255 then (v + 1) ∷ ds else 0 ∷ rest

get_elem?-rev : (ds xs : Bytes) (i : ℕ) → get_elem? (rev ds xs) (length ds + i) ≡ get_elem? xs i
unfolding rev
get_elem?-rev [] xs i = let e : 0 + i ≡ i = omega arith in rw e refl
get_elem?-rev (v ∷ ds) xs i =
    let e : suc (length ds) + i ≡ length ds + suc i = omega arith in
    rw e (get_elem?-rev ds (v ∷ xs) (suc i))

set-rev : (ds xs : Bytes) (i b : ℕ) → set (rev ds xs) (length ds + i) b ≡ rev ds (set xs i b)
unfolding rev
set-rev [] xs i b = let e : 0 + i ≡ i = omega arith in rw e refl
set-rev (v ∷ ds) xs i b =
    let e : suc (length ds) + i ≡ length ds + suc i = omega arith in
    rw e (set-rev ds (v ∷ xs) (suc i) b)

increment_from-rev :
    (ds rest : Bytes) → increment_from (length ds) (rev ds rest) ≡ rev (next ds) rest
unfolding increment_from rev next
increment_from-rev [] rest = refl
increment_from-rev (v ∷ ds) rest =
    let e : length ds + 0 ≡ length ds = omega arith in
    let digit = rw e at (get_elem?-rev ds (v ∷ rest) 0) in
    let cleared = rw e at (set-rev ds (v ∷ rest) 0 0) in
    let bumped = rw e at (set-rev ds (v ∷ rest) 0 (v + 1)) in
    elim (Bool-cases (ltb v 255)) [
      | inl s ↦ rw (digit, s, bumped) refl
      | inr b ↦ rw (cleared, digit, b) (increment_from-rev ds (0 ∷ rest))
    ]

le-bound : (ds : Bytes) → All IsByte ds → le ds < 256 ^ length ds
unfolding le
le-bound [] v = omega arith
le-bound (d ∷ ds) v = ground (arith, le-bound ds v.1, v.0)

-- One more, or the wrap-around to zero.
le-next :
    (ds : Bytes)
    → All IsByte ds
    → ((le (next ds) ≡ le ds + 1) × (le ds + 1 < 256 ^ length ds))
      ⊎ ((le (next ds) ≡ 0) × (le ds + 1 ≡ 256 ^ length ds))
unfolding next le
le-next [] v = inr (refl, refl)
le-next (d ∷ ds) v = elim (Bool-cases (ltb d 255)) [
  | inl s ↦ rw s (inl (omega arith, ground (arith, s, le-bound ds v.1)))
  | inr b ↦ rw b (elim (le-next ds v.1) [
    | inl (p, q) ↦ inl (ground (arith, p, v.0), ground (arith, q, v.0))
    | inr (p, q) ↦ inr (omega (arith, p), ground (arith, q, v.0))
  ])
]

be_from-rev : (ds rest : Bytes) → be (rev ds rest) ≡ be_from (le ds) rest
unfolding rev be be_from le
be_from-rev [] rest = refl
be_from-rev (d ∷ ds) rest =
    let e : le ds * 256 + d ≡ d + 256 * le ds = omega arith in
    be_from-rev ds (d ∷ rest) ∙ ap (λ n. be_from n rest) e

rev-rev : (a b c : Bytes) → rev (rev a b) c ≡ rev b (a ++ c)
unfolding rev
rev-rev [] b c = refl
rev-rev (v ∷ a) b c = rev-rev a (v ∷ b) c

length-rev : (a b : Bytes) → length (rev a b) ≡ length a + length b
unfolding rev
length-rev [] b = omega arith
length-rev (v ∷ a) b = omega (arith, length-rev a (v ∷ b))

rev-All : (a b : Bytes) → All IsByte a → All IsByte b → All IsByte (rev a b)
unfolding rev
rev-All [] b p q = q
rev-All (v ∷ a) b p q = rev-All a (v ∷ b) p.1 (p.0, q)

-- A sequence number of twelve bytes goes up by one, and after the greatest comes zero.
pub be-increment_seq_number :
    (seq : Bytes) → IsBytes 12 seq → be (increment_seq_number seq) ≡ (be seq + 1) % 2 ^ 96
unfolding increment_seq_number rev be_from
be-increment_seq_number seq v =
    let ds = rev seq [] in
    let back : rev ds [] ≡ seq = rev-rev seq [] [] ∙ append-nil seq in
    let size : length ds ≡ 12 = omega (arith, length-rev seq [], v.len) in
    let bytes : All IsByte ds = rev-All seq [] v.each tt in
    let same : length seq ≡ length ds = v.len ∙ sym size in
    let step : increment_from (length seq) seq ≡ rev (next ds) [] =
      ap₂ increment_from same (sym back) ∙ increment_from-rev ds [] in
    let value : be seq ≡ le ds = ap be (sym back) ∙ be_from-rev ds [] in
    let bound : le ds < 2 ^ 96 = rw size at (le-bound ds bytes) in
    rw (step, value, be_from-rev (next ds) [])
      (elim (le-next ds bytes) [
        | inl (p, q) ↦ let q' : le ds + 1 < 2 ^ 96 = rw size at q in omega (arith, p, q')
        | inr (p, q) ↦ let q' : le ds + 1 ≡ 2 ^ 96 = rw size at q in omega (arith, p, q')
      ])

length-next : (ds : Bytes) → length (next ds) ≡ length ds
unfolding next
length-next [] = refl
length-next (v ∷ ds) = elim (Bool-cases (ltb v 255)) [
  | inl s ↦ rw s refl
  | inr b ↦ rw b (ap suc (length-next ds))
]

next-All : (ds : Bytes) → All IsByte ds → All IsByte (next ds)
unfolding next
next-All [] v = tt
next-All (d ∷ ds) v = elim (Bool-cases (ltb d 255)) [
  | inl s ↦ rw s (ground (arith, s), v.1)
  | inr b ↦ rw b (omega arith, next-All ds v.1)
]

-- A sequence number keeps its size.
pub increment_seq_number-IsBytes :
    (n : ℕ) (seq : Bytes) → IsBytes n seq → IsBytes n (increment_seq_number seq)
unfolding increment_seq_number rev
increment_seq_number-IsBytes n seq v =
    let ds = rev seq [] in
    let back : rev ds [] ≡ seq = rev-rev seq [] [] ∙ append-nil seq in
    let size : length ds ≡ length seq = omega (arith, length-rev seq []) in
    let step : increment_from (length seq) seq ≡ rev (next ds) [] =
      ap₂ increment_from (sym size) (sym back) ∙ increment_from-rev ds [] in
    rw step (record {
      len = omega (arith, length-rev (next ds) [], length-next ds, size, v.len);
      each = rev-All (next ds) [] (next-All ds (rev-All seq [] v.each tt)) tt;
    })
