-- ===== src/Wire/Hex.antt =====
-- PubKeyArrayToString and PubKeyStringToArray of ldrlib/utils.go, over encoding/hex: a string is the
-- list of its character codes.
use ld_routing.Base.{
  ℕ, zero, suc, ◌+◌, ◌-◌, ◌*◌, ◌/◌, ◌%◌, ◌<◌, ◌≡◌, refl, ap, ◌&&◌, Option, none, some, [], ◌∷◌,
  arith, ltb, leb, if◌then◌else◌, length, All,
}
use mathlib.Core.Option
use ld_routing.Base.Run.{Run, ok, fatal}
use ld_routing.Base.Bytes.{Bytes, IsByte, IsBytes}

-- The characters 0-9 and a-f; the decoder takes A-F too.
hex_digit : ℕ → ℕ
hex_digit n = if ltb n 10 then b'0' + n else b'a' + n - 10

hex_value : ℕ → Option ℕ
hex_value c =
    if leb b'0' c && leb c b'9'
    then some (c - b'0')
    else if leb b'a' c && leb c b'f'
    then some (c - b'a' + 10)
    else if leb b'A' c && leb c b'F'
    then some (c - b'A' + 10)
    else none

-- hex.EncodeToString
unfoldable pub hex_encode : Bytes → Bytes
unfolding hex_digit
hex_encode [] = []
hex_encode (b ∷ bs) = hex_digit (b / 16) ∷ hex_digit (b % 16) ∷ hex_encode bs

-- hex.DecodeString: an error on an odd length or another character.
unfoldable pub hex_decode : Bytes → Option Bytes
unfolding hex_value
hex_decode [] = some []
hex_decode (c ∷ []) = none
hex_decode (c ∷ e ∷ cs) =
    Option.bind (hex_value c)
      λ hi. Option.bind (hex_value e) λ lo. Option.map (λ bs. (16 * hi + lo) ∷ bs) (hex_decode cs)

unfoldable pub pub_key_array_to_string : Bytes → Bytes
pub_key_array_to_string pubkey = hex_encode pubkey

-- copy into a [n]byte that is zero
unfoldable pub copy_into : ℕ → Bytes → Bytes
copy_into zero bs = []
copy_into (suc n) [] = 0 ∷ copy_into n []
copy_into (suc n) (b ∷ bs) = b ∷ copy_into n bs

unfoldable pub pub_key_string_to_array : Bytes → Run Bytes
unfolding hex_decode copy_into
pub_key_string_to_array pubkey = elim (hex_decode pubkey) [
  | none ↦ fatal
  | some bs ↦ ok (copy_into 33 bs)
]

hex_value-hex_digit : (n : ℕ) → n < 16 → hex_value (hex_digit n) ≡ some n
unfolding hex_value hex_digit
hex_value-hex_digit n h = ground arith

pub hex_decode-hex_encode : (bs : Bytes) → All IsByte bs → hex_decode (hex_encode bs) ≡ some bs
unfolding hex_decode hex_encode Option.bind
hex_decode-hex_encode [] h = refl
hex_decode-hex_encode (b ∷ bs) h =
    let whole : 16 * (b / 16) + b % 16 ≡ b = omega arith in
    rw (
      hex_value-hex_digit (b / 16) (omega (arith, h.0)),
      hex_value-hex_digit (b % 16) (omega arith),
      hex_decode-hex_encode bs h.1,
      whole,
    )

copy_into-length : (bs : Bytes) → copy_into (length bs) bs ≡ bs
unfolding copy_into
copy_into-length [] = refl
copy_into-length (b ∷ bs) = ap (λ t. b ∷ t) (copy_into-length bs)

-- A public key written as text reads back as it was.
pub pub_key_string_to_array-pub_key_array_to_string :
    (key : Bytes) → IsBytes 33 key → pub_key_string_to_array (pub_key_array_to_string key) ≡ ok key
unfolding pub_key_string_to_array pub_key_array_to_string
pub_key_string_to_array-pub_key_array_to_string key v =
    rw (hex_decode-hex_encode key v.each, pub_key_string_to_array)
      (ap ok (rw v.len at (copy_into-length key)))
