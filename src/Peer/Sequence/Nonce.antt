-- ===== src/Peer/Sequence/Nonce.antt =====
-- The nonces of a session: getNonce of ldrlib/crypto.go at the sequence numbers that
-- incrementSeqNumber goes through.
use Prim.Native.Nat.{digits, differ, bit_xor-bitwise}
use ld_routing.Base.{
  ℕ, zero, suc, ◌+◌, ◌/◌, ◌%◌, ◌*◌, ◌<◌, ◌≤◌, ◌^◌, ◌≡◌, ◌≢◌, refl, sym, ◌∙◌, ap, ap₂, [], ◌∷◌,
  length, arith, bit_xor, ◌↔◌, ltb, Bool-cases, inl, inr,
}
use ld_routing.Base.Run.{ok}
use ld_routing.Base.Bytes.{Bytes, IsBytes, be}
use ld_routing.Peer.Sequence.{increment_seq_number, get_nonce}
use ld_routing.Peer.Sequence.Count.{be-increment_seq_number, increment_seq_number-IsBytes}

ok-injective : {A : Type 0} {a b : A} → ok a ≡ ok b → a ≡ b
ok-injective h = cc

-- Two digits differ in at most one way.
differ-injective : (r s t : ℕ) → r < 2 → s < 2 → t < 2 → differ r s ≡ differ r t → s ≡ t
differ-injective zero s t hr hs ht e = e
differ-injective (suc zero) zero zero hr hs ht e = refl
differ-injective (suc zero) zero (suc t) hr hs ht e = absurd (omega (arith, e, ht))
differ-injective (suc zero) (suc s) zero hr hs ht e = absurd (omega (arith, e, hs))
differ-injective (suc zero) (suc s) (suc t) hr hs ht e = ap suc e
differ-injective (suc (suc r)) s t hr hs ht e = absurd (omega (arith, hr))

differ-lt : (r s : ℕ) → r < 2 → s < 2 → differ r s < 2
differ-lt zero s hr hs = hs
differ-lt (suc zero) zero hr hs = omega arith
differ-lt (suc zero) (suc s) hr hs = omega (arith, hs)
differ-lt (suc (suc r)) s hr hs = absurd (omega (arith, hr))

digits-injective :
    (n a b c : ℕ) → digits (λ b. b) differ n a b ≡ digits (λ b. b) differ n a c → a ≤ n → b ≡ c
digits-injective zero a b c e h = e
digits-injective (suc n) zero b c e h = e
digits-injective (suc n) (suc a) b c e h =
    let r = suc a % 2 in
    let x = digits (λ b. b) differ n (suc a / 2) (b / 2) in
    let y = digits (λ b. b) differ n (suc a / 2) (c / 2) in
    let lt = differ-lt r (b % 2) (omega arith) (omega arith) in
    let lt' = differ-lt r (c % 2) (omega arith) (omega arith) in
    let e' : x * 2 + differ r (b % 2) ≡ y * 2 + differ r (c % 2) = e in
    let high : b / 2 ≡ c / 2 =
      digits-injective n (suc a / 2) (b / 2) (c / 2) (omega (arith, e', lt, lt'))
        (omega (arith, h)) in
    let low : b % 2 ≡ c % 2 =
      differ-injective r (b % 2) (c % 2) (omega arith) (omega arith) (omega arith)
        (omega (arith, e', lt, lt')) in
    omega (arith, high, low)

bit_xor-injective : (a b c : ℕ) → bit_xor a b ≡ bit_xor a c → b ≡ c
bit_xor-injective a b c e =
    digits-injective a a b c (sym (bit_xor-bitwise a b) ∙ e ∙ bit_xor-bitwise a c) (omega arith)

-- The nonce of a sequence number.
abbrev pub nonce_of : Bytes → Bytes → Bytes
nonce_of [] seq = []
nonce_of (b ∷ base_iv) [] = []
nonce_of (b ∷ base_iv) (s ∷ seq) = bit_xor b s ∷ nonce_of base_iv seq

pub get_nonce-nonce_of :
    (base_iv seq : Bytes)
    → length base_iv ≡ length seq
    → get_nonce base_iv seq ≡ ok (nonce_of base_iv seq)
unfolding get_nonce
get_nonce-nonce_of [] seq h = refl
get_nonce-nonce_of (b ∷ base_iv) [] h = absurd (omega (arith, h))
get_nonce-nonce_of (b ∷ base_iv) (s ∷ seq) h =
    rw (get_nonce-nonce_of base_iv seq (omega (arith, h))) refl

pub length-nonce_of :
    (base_iv seq : Bytes)
    → length base_iv ≡ length seq
    → length (nonce_of base_iv seq) ≡ length base_iv
length-nonce_of [] seq h = refl
length-nonce_of (b ∷ base_iv) [] h = absurd (omega (arith, h))
length-nonce_of (b ∷ base_iv) (s ∷ seq) h = ap suc (length-nonce_of base_iv seq (omega (arith, h)))

head-injective : (a b : ℕ) (as_ bs : Bytes) → a ∷ as_ ≡ b ∷ bs → (a ≡ b) × (as_ ≡ bs)
head-injective a b as_ bs e = (cc, cc)

nonce_of-injective :
    (base_iv seq seq' : Bytes)
    → length seq ≡ length base_iv
    → length seq' ≡ length base_iv
    → nonce_of base_iv seq ≡ nonce_of base_iv seq'
    → seq ≡ seq'
nonce_of-injective [] [] [] h h' e = refl
nonce_of-injective (b ∷ base_iv) (s ∷ seq) (s' ∷ seq') h h' e =
    let (first, rest) =
      head-injective (bit_xor b s) (bit_xor b s') (nonce_of base_iv seq) (nonce_of base_iv seq')
        e in
    ap₂ (λ x xs. x ∷ xs) (bit_xor-injective b s s' first)
      (nonce_of-injective base_iv seq seq' (omega (arith, h)) (omega (arith, h')) rest)
nonce_of-injective [] (s ∷ seq) seq' h h' e = absurd (omega (arith, h))
nonce_of-injective [] [] (s ∷ seq') h h' e = absurd (omega (arith, h'))
nonce_of-injective (b ∷ base_iv) [] seq' h h' e = absurd (omega (arith, h))
nonce_of-injective (b ∷ base_iv) (s ∷ seq) [] h h' e = absurd (omega (arith, h'))

-- The sequence number after `n` messages.
abbrev pub after : ℕ → Bytes → Bytes
after zero seq = seq
after (suc n) seq = increment_seq_number (after n seq)

after-IsBytes : (n : ℕ) (seq : Bytes) → IsBytes 12 seq → IsBytes 12 (after n seq)
after-IsBytes zero seq v = v
after-IsBytes (suc n) seq v = increment_seq_number-IsBytes 12 (after n seq) (after-IsBytes n seq v)

be-after :
    (n : ℕ) (seq : Bytes) → IsBytes 12 seq → be (after n seq) % 2 ^ 96 ≡ (be seq + n) % 2 ^ 96
be-after zero seq v = omega arith
be-after (suc n) seq v =
    omega (arith, be-increment_seq_number (after n seq) (after-IsBytes n seq v), be-after n seq v)

-- The nonces of different messages differ.
pub nonce_of-after :
    (base_iv seq : Bytes) (m n : ℕ)
    → length base_iv ≡ 12
    → IsBytes 12 seq
    → m < n
    → n < 2 ^ 96
    → nonce_of base_iv (after m seq) ≢ nonce_of base_iv (after n seq)
nonce_of-after base_iv seq m n hb v lt few same =
    let equal =
      nonce_of-injective base_iv (after m seq) (after n seq) ((after-IsBytes m seq v).len ∙ sym hb)
        ((after-IsBytes n seq v).len ∙ sym hb) same in
    absurd (omega (arith, ap be equal, be-after m seq v, be-after n seq v))

get_nonce-distinct :
    (base_iv seq nonce nonce' : Bytes) (m n : ℕ)
    → length base_iv ≡ 12
    → IsBytes 12 seq
    → m < n
    → n < 2 ^ 96
    → get_nonce base_iv (after m seq) ≡ ok nonce
    → get_nonce base_iv (after n seq) ≡ ok nonce'
    → nonce ≢ nonce'
get_nonce-distinct base_iv seq nonce nonce' m n hb v lt few e e' same =
    let sized = hb ∙ sym (after-IsBytes m seq v).len in
    let sized' = hb ∙ sym (after-IsBytes n seq v).len in
    let first = sym (get_nonce-nonce_of base_iv (after m seq) sized) ∙ e in
    let second = sym (get_nonce-nonce_of base_iv (after n seq) sized') ∙ e' in
    nonce_of-after base_iv seq m n hb v lt few cc

-- With a base IV and a first sequence number of twelve bytes, the nonces after m and after n
-- increments, both below 2^96, are equal exactly where m is n: also two messages of the two sides of a
-- connection share their nonce where they are sealed after equally many increments.
pub get_nonce-after :
    (base_iv seq nonce nonce' : Bytes) (m n : ℕ)
    → length base_iv ≡ 12
    → IsBytes 12 seq
    → m < 2 ^ 96
    → n < 2 ^ 96
    → get_nonce base_iv (after m seq) ≡ ok nonce
    → get_nonce base_iv (after n seq) ≡ ok nonce'
    → (nonce ≡ nonce') ↔ (m ≡ n)
get_nonce-after base_iv seq nonce nonce' m n hb v few few' e e' = (
  λ same. elim (Bool-cases (ltb m n)) [
    | inl lt ↦
        absurd
          (get_nonce-distinct base_iv seq nonce nonce' m n hb v (ground (arith, lt)) few' e e' same)
    | inr le ↦ elim (Bool-cases (ltb n m)) [
      | inl lt ↦ absurd (
          get_nonce-distinct base_iv seq nonce' nonce n m hb v (ground (arith, lt)) few e' e
            (sym same))
      | inr ge ↦ ground (arith, le, ge)
    ]
  ],
  λ same. ok-injective (sym e ∙ ap (λ k. get_nonce base_iv (after k seq)) same ∙ e'),
)
