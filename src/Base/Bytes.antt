-- ===== src/Base/Bytes.antt =====
-- Byte slices and the fixed-width integers of encoding/binary.
pub mod Cut
use Prim.Native.Nat.{ℕ, zero, suc, ◌+◌, ◌*◌, ◌/◌, ◌%◌, ◌^◌, ◌-◌, ◌<◌, ◌≤◌}
use mathlib.Core.Path.{◌≡◌, refl, ap}
use mathlib.Core.Logic.{◌↔◌}
use mathlib.Core.Bool.{Bool, true, false, ◌&&◌}
use mathlib.Core.List.{List, [], ◌∷◌, ◌++◌, append-nil}
use native.Mathlib.Omega.{arith}
use native.Mathlib.Nat.{pow-suc}
use ld_routing.Base.Tests.{◌==◌, leb, if◌then◌else◌}
use ld_routing.Base.Lists.{
  length, take, drop, All, length-append, take-append-length, drop-append-length, drop-append_long,
}
use ld_routing.Base.Run.{Run, ok, panic}

-- A []byte, and a [n]byte with its length in `IsBytes`.
abbrev pub Bytes : Type 0
Bytes = List ℕ

abbrev pub IsByte : ℕ → Type 0
IsByte b = b < 256

pub record IsBytes (n : ℕ) (bs : Bytes) : Type 0 where
  pub len : length bs ≡ n
  pub each : All IsByte bs

-- `==` of two byte arrays
unfoldable pub bytes_eq : Bytes → Bytes → Bool
bytes_eq [] [] = true
bytes_eq [] (b ∷ bs) = false
bytes_eq (a ∷ as_) [] = false
bytes_eq (a ∷ as_) (b ∷ bs) = (a == b) && bytes_eq as_ bs

pub bytes_eq_iff : (a b : Bytes) → (bytes_eq a b ≡ true) ↔ (a ≡ b)
unfolding bytes_eq
bytes_eq_iff [] [] = (λ _. refl, λ _. refl)
bytes_eq_iff [] (b ∷ bs) = (λ h. cc, λ h. cc)
bytes_eq_iff (a ∷ as_) [] = (λ h. cc, λ h. cc)
bytes_eq_iff (a ∷ as_) (b ∷ bs) = ground (arith, bytes_eq_iff as_ bs)

pub bytes_eq_refl : (a : Bytes) → bytes_eq a a ≡ true
bytes_eq_refl a = (bytes_eq_iff a a).1 refl

-- s[lo:hi]: a panic if `hi` is past the end (the slices that the code cuts have no spare capacity).
unfoldable pub slice : ℕ → ℕ → Bytes → Run Bytes
slice lo hi bs = if leb lo hi && leb hi (length bs) then ok (take (hi - lo) (drop lo bs)) else panic

-- PutUint16, PutUint32 and PutUint64 of binary.LittleEndian, `w` bytes
unfoldable pub put_le : ℕ → ℕ → Bytes
put_le zero n = []
put_le (suc w) n = n % 256 ∷ put_le w (n / 256)

-- Uint16, Uint32 and Uint64 of binary.LittleEndian
unfoldable pub le : Bytes → ℕ
le [] = 0
le (b ∷ bs) = b + 256 * le bs

-- PutUint16, ... of binary.BigEndian
unfoldable pub put_be : ℕ → ℕ → Bytes
put_be zero n = []
put_be (suc w) n = (n / 256 ^ w) % 256 ∷ put_be w n

unfoldable pub be_from : ℕ → Bytes → ℕ
be_from acc [] = acc
be_from acc (b ∷ bs) = be_from (acc * 256 + b) bs

-- Uint16, ... of binary.BigEndian
unfoldable pub be : Bytes → ℕ
unfolding be_from
be bs = be_from 0 bs

pub length-put_le : (w n : ℕ) → length (put_le w n) ≡ w
unfolding put_le
length-put_le zero n = refl
length-put_le (suc w) n = ap suc (length-put_le w (n / 256))

pub length-put_be : (w n : ℕ) → length (put_be w n) ≡ w
unfolding put_be
length-put_be zero n = refl
length-put_be (suc w) n = ap suc (length-put_be w n)

pub le-put_le : (w n : ℕ) → n < 256 ^ w → le (put_le w n) ≡ n
unfolding le put_le
le-put_le zero n h = omega arith
le-put_le (suc w) n h =
    omega (arith, pow-suc 256 w, le-put_le w (n / 256) (omega (arith, pow-suc 256 w)))

pub put_le-IsBytes : (w n : ℕ) → IsBytes w (put_le w n)
unfolding put_le
put_le-IsBytes zero n = record { len = refl; each = tt }
put_le-IsBytes (suc w) n =
    let rest = put_le-IsBytes w (n / 256) in
    record { len = ap suc rest.len; each = (omega arith, rest.each) }

pub be-put_be_two : (n : ℕ) → n < 2 ^ 16 → be (put_be 2 n) ≡ n
unfolding be put_be
be-put_be_two n h = omega arith

pub be-put_be_eight : (n : ℕ) → n < 2 ^ 64 → be (put_be 8 n) ≡ n
unfolding be put_be
be-put_be_eight n h = omega arith
