-- ===== src/Wire/Bits.antt =====
-- ldrlib/utils.go: byteToBit and bitToByte, an address as the 32 bits of a path in the tree.
use ld_routing.Base.{
  ℕ, zero, suc, ◌*◌, ◌/◌, ◌<◌, bit_and, bit_or, ◌≤◌, ◌≡◌, refl, sym, ap, ap₂, ◌∙◌, Bool, true,
  false, not, ◌&&◌, List, [], ◌∷◌, ◌++◌, arith, ◌==◌, ==_iff, if◌then◌else◌, ltb, ltb→lt, length,
  take, drop, All, length-take, length-drop, take-append-drop,
}
use ld_routing.Base.Bytes.{Bytes, IsByte, IsBytes}

-- A [32]bool.
abbrev pub Bits : Type 0
Bits = List Bool

-- The inner loop of byteToBit: `n` rounds, the mask shifted right after each.
bits_of_byte : ℕ → ℕ → ℕ → Bits
bits_of_byte zero mask b = []
bits_of_byte (suc n) mask b = (bit_and mask b == mask) ∷ bits_of_byte n (mask / 2) b

unfoldable pub byte_to_bit : Bytes → Bits
unfolding bits_of_byte
byte_to_bit [] = []
byte_to_bit (b ∷ bs) = bits_of_byte 8 0x80 b ++ byte_to_bit bs

-- The inner loop of bitToByte over the eight bits from the front of the list.
byte_of_bits : ℕ → ℕ → ℕ → Bits → ℕ
byte_of_bits zero multiplier acc bits = acc
byte_of_bits (suc n) multiplier acc [] = acc
byte_of_bits (suc n) multiplier acc (b ∷ bits) =
    byte_of_bits n (multiplier / 2) (if b then bit_or acc multiplier else acc) bits

-- The outer loop of bitToByte, `n` bytes.
bytes_of_bits : ℕ → Bits → Bytes
bytes_of_bits zero bits = []
bytes_of_bits (suc n) bits = byte_of_bits 8 0x80 0 bits ∷ bytes_of_bits n (drop 8 bits)

unfoldable pub bit_to_byte : Bits → Bytes
unfolding byte_of_bits bytes_of_bits
bit_to_byte bits = bytes_of_bits 4 bits

-- A test of the numbers below a bound, the greatest last.
holds_up_to : (ℕ → Bool) → ℕ → Bool
holds_up_to test zero = true
holds_up_to test (suc bound) = holds_up_to test bound && test bound

holds_up_to-at :
    (test : ℕ → Bool) (bound b : ℕ) → b < bound → holds_up_to test bound ≡ true → test b ≡ true
unfolding holds_up_to
holds_up_to-at test zero b small holds = absurd (omega arith)
holds_up_to-at test (suc bound) b small holds = ground (arith, holds_up_to-at test bound b)

byte_table : holds_up_to (λ b. byte_of_bits 8 0x80 0 (bits_of_byte 8 0x80 b) == b) 256 ≡ true
unfolding holds_up_to byte_of_bits bits_of_byte
byte_table = refl

byte_of_bits-append :
    (b : ℕ) (rest : Bits)
    → byte_of_bits 8 0x80 0 (bits_of_byte 8 0x80 b ++ rest)
      ≡ byte_of_bits 8 0x80 0 (bits_of_byte 8 0x80 b)
unfolding byte_of_bits bits_of_byte
byte_of_bits-append b rest = refl

byte_of_bits-bits_of_byte : (b : ℕ) → b < 256 → byte_of_bits 8 0x80 0 (bits_of_byte 8 0x80 b) ≡ b
byte_of_bits-bits_of_byte b h = (==_iff _ b).0 (holds_up_to-at _ 256 b h byte_table)

drop-bits_of_byte : (b : ℕ) (rest : Bits) → drop 8 (bits_of_byte 8 0x80 b ++ rest) ≡ rest
unfolding bits_of_byte
drop-bits_of_byte b rest = refl

bytes_of_bits-byte_to_bit :
    (bs : Bytes) → All IsByte bs → bytes_of_bits (length bs) (byte_to_bit bs) ≡ bs
unfolding bytes_of_bits byte_to_bit
bytes_of_bits-byte_to_bit [] h = refl
bytes_of_bits-byte_to_bit (b ∷ bs) h =
    ap₂ (λ x xs. x ∷ xs) (byte_of_bits-append b (byte_to_bit bs) ∙ byte_of_bits-bits_of_byte b h.0)
      (bytes_of_bits-byte_to_bit bs h.1)

-- An address turned into bits and back is the address.
bit_to_byte-byte_to_bit :
    (address : Bytes) → IsBytes 4 address → bit_to_byte (byte_to_bit address) ≡ address
unfolding bit_to_byte
bit_to_byte-byte_to_bit address h = rw h.len at (bytes_of_bits-byte_to_bit address h.each)

-- Every list of `n` bits by evaluation.
all_bits : ℕ → (Bits → Bool) → Bool
all_bits zero p = p []
all_bits (suc n) p = all_bits n (λ bs. p (true ∷ bs)) && all_bits n (λ bs. p (false ∷ bs))

all_bits_sound :
    (n : ℕ) (p : Bits → Bool) (bits : Bits) → all_bits n p ≡ true → length bits ≡ n → p bits ≡ true
unfolding all_bits
all_bits_sound zero p [] h e = h
all_bits_sound zero p (b ∷ bits) h e = absurd (omega arith)
all_bits_sound (suc n) p [] h e = absurd (omega arith)
all_bits_sound (suc n) p (true ∷ bits) h e =
    all_bits_sound n (λ bs. p (true ∷ bs)) bits (ground arith) (omega arith)
all_bits_sound (suc n) p (false ∷ bits) h e =
    all_bits_sound n (λ bs. p (false ∷ bs)) bits (ground arith) (omega arith)

abbrev same : Bool → Bool → Bool
same true b = b
same false b = not b

abbrev bits_eq : Bits → Bits → Bool
bits_eq [] [] = true
bits_eq [] (b ∷ bs) = false
bits_eq (a ∷ as_) [] = false
bits_eq (a ∷ as_) (b ∷ bs) = same a b && bits_eq as_ bs

eq_of_bits_eq : (a b : Bits) → bits_eq a b ≡ true → a ≡ b
eq_of_bits_eq [] [] h = refl
eq_of_bits_eq [] (b ∷ bs) h = cc
eq_of_bits_eq (a ∷ as_) [] h = cc
eq_of_bits_eq (true ∷ as_) (true ∷ bs) h = ap (λ t. true ∷ t) (eq_of_bits_eq as_ bs h)
eq_of_bits_eq (true ∷ as_) (false ∷ bs) h = cc
eq_of_bits_eq (false ∷ as_) (true ∷ bs) h = cc
eq_of_bits_eq (false ∷ as_) (false ∷ bs) h = ap (λ t. false ∷ t) (eq_of_bits_eq as_ bs h)

bits_table :
    all_bits 8 (λ bits. bits_eq (bits_of_byte 8 0x80 (byte_of_bits 8 0x80 0 bits)) bits) ≡ true
unfolding all_bits byte_of_bits bits_of_byte
bits_table = refl

byte_range_table : all_bits 8 (λ bits. ltb (byte_of_bits 8 0x80 0 bits) 256) ≡ true
unfolding all_bits byte_of_bits
byte_range_table = refl

bits_of_byte-byte_of_bits :
    (bits : Bits) → length bits ≡ 8 → bits_of_byte 8 0x80 (byte_of_bits 8 0x80 0 bits) ≡ bits
bits_of_byte-byte_of_bits bits e = eq_of_bits_eq _ _ (
    all_bits_sound 8 (λ bs. bits_eq (bits_of_byte 8 0x80 (byte_of_bits 8 0x80 0 bs)) bs) bits
      bits_table e)

byte_of_bits-take :
    (n m acc : ℕ) (bits : Bits) → byte_of_bits n m acc (take n bits) ≡ byte_of_bits n m acc bits
unfolding byte_of_bits
byte_of_bits-take zero m acc bits = refl
byte_of_bits-take (suc n) m acc [] = refl
byte_of_bits-take (suc n) m acc (b ∷ bits) = byte_of_bits-take n (m / 2) _ bits

byte_of_bits-lt : (bits : Bits) → 8 ≤ length bits → byte_of_bits 8 0x80 0 bits < 256
byte_of_bits-lt bits h = rw (← byte_of_bits-take 8 0x80 0 bits) (
    ltb→lt _ 256 (
      all_bits_sound 8 (λ bs. ltb (byte_of_bits 8 0x80 0 bs) 256) (take 8 bits) byte_range_table
        (length-take 8 bits h)))

byte_to_bit-bytes_of_bits :
    (n : ℕ) (bits : Bits) → length bits ≡ n * 8 → byte_to_bit (bytes_of_bits n bits) ≡ bits
unfolding bytes_of_bits byte_to_bit
byte_to_bit-bytes_of_bits zero [] h = refl
byte_to_bit-bytes_of_bits zero (b ∷ bits) h = absurd (omega arith)
byte_to_bit-bytes_of_bits (suc n) bits h =
    ap₂ (λ x xs. x ++ xs)
      (ap (bits_of_byte 8 0x80) (sym (byte_of_bits-take 8 0x80 0 bits))
        ∙ bits_of_byte-byte_of_bits (take 8 bits) (length-take 8 bits (omega arith)))
      (byte_to_bit-bytes_of_bits n (drop 8 bits) (omega (arith, length-drop 8 bits)))
    ∙ take-append-drop 8 bits

-- A path of 32 bits turned into an address and back is the path.
pub byte_to_bit-bit_to_byte :
    (bits : Bits) → length bits ≡ 32 → byte_to_bit (bit_to_byte bits) ≡ bits
unfolding bit_to_byte
byte_to_bit-bit_to_byte bits h = byte_to_bit-bytes_of_bits 4 bits h

bytes_of_bits-IsBytes :
    (n : ℕ) (bits : Bits) → length bits ≡ n * 8 → IsBytes n (bytes_of_bits n bits)
unfolding bytes_of_bits
bytes_of_bits-IsBytes zero bits h = record { len = refl; each = tt }
bytes_of_bits-IsBytes (suc n) bits h =
    let rest = bytes_of_bits-IsBytes n (drop 8 bits) (omega (arith, length-drop 8 bits)) in
    record { len = ap suc rest.len; each = (byte_of_bits-lt bits (omega arith), rest.each) }

-- A path of 32 bits is an address of four bytes.
pub bit_to_byte-IsBytes : (bits : Bits) → length bits ≡ 32 → IsBytes 4 (bit_to_byte bits)
unfolding bit_to_byte
bit_to_byte-IsBytes bits h = bytes_of_bits-IsBytes 4 bits h

length-bits_of_byte : (n m b : ℕ) → length (bits_of_byte n m b) ≡ n
unfolding bits_of_byte
length-bits_of_byte zero m b = refl
length-bits_of_byte (suc n) m b = ap suc (length-bits_of_byte n (m / 2) b)

-- `n` bytes have 8 * n bits.
pub length-byte_to_bit : (bs : Bytes) → length (byte_to_bit bs) ≡ 8 * length bs
unfolding byte_to_bit
length-byte_to_bit [] = refl
length-byte_to_bit (b ∷ bs) = omega (arith, length-byte_to_bit bs)
