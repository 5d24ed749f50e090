-- ===== src/Bitcoin/Script.antt =====
-- The registration that BroadcastNewAddressTx writes, and that getNewAddressRegistrations finds
-- (ldrlib/bitcoin.go).
use ld_routing.Base.{
  ℕ, ◌*◌, ◌≡◌, refl, sym, ◌∙◌, ap, ap₂, some, List, [], ◌∷◌, ◌++◌, arith, length, take, replicate,
  length-append, append_assoc,
}
use mathlib.Core.Option
use ld_routing.Base.Run.{ok, ◌>>=◌}
use ld_routing.Base.Bytes.{Bytes, IsBytes, bytes_eq_refl, be}
use ld_routing.Base.Bytes.Cut.{slice-field, slice-last}
use ld_routing.Wire.Hex.{hex_encode, hex_decode, hex_decode-hex_encode}
use ld_routing.Bitcoin.{
  AddressRegistration, Tx, codes, copy, registration_prefix, registration_script, read_registration,
  scan_block, op_return_script,
}

hex_encode-append : (a b : Bytes) → hex_encode (a ++ b) ≡ hex_encode a ++ hex_encode b
unfolding hex_encode
hex_encode-append [] b = refl
hex_encode-append (x ∷ a) b = rw (hex_encode-append a b) refl

length-hex_encode : (a : Bytes) → length (hex_encode a) ≡ 2 * length a
unfolding hex_encode
length-hex_encode [] = refl
length-hex_encode (x ∷ a) = omega (arith, length-hex_encode a)

copy-whole : (dst src : Bytes) → length src ≡ length dst → copy dst src ≡ src
copy-whole [] [] h = refl
copy-whole [] (y ∷ src) h = absurd (omega arith)
copy-whole (x ∷ dst) [] h = absurd (omega arith)
copy-whole (x ∷ dst) (y ∷ src) h = ap (λ t. y ∷ t) (copy-whole dst src (omega arith))

-- The ten bytes at the front of the script: the operation, the marker and the version.
front : Bytes
front = 106 ∷ 76 ∷ 76 ∷ 108 ∷ 97 ∷ 114 ∷ 0 ∷ 0 ∷ 0 ∷ 0 ∷ []

op_return_script-front :
    (address sig : Bytes) → op_return_script address sig ≡ some (front ++ (address ++ sig))
unfolding op_return_script front hex_decode Option.bind
op_return_script-front address sig = refl

version_codes : Bytes
version_codes = codes "00000000"

front-hex : hex_encode front ≡ registration_prefix ++ version_codes
unfolding hex_encode front version_codes
front-hex = refl

version-length : length version_codes ≡ 8
unfolding version_codes
version-length = refl

version-decoded : hex_decode version_codes ≡ some (0 ∷ 0 ∷ 0 ∷ 0 ∷ [])
unfolding version_codes hex_decode Option.bind
version-decoded = refl

-- The script in hex.
script_hex : Bytes → Bytes → Bytes
script_hex address sig =
    registration_prefix ++ (version_codes ++ (hex_encode address ++ hex_encode sig))

hex-script : (address sig : Bytes) → hex_encode (front ++ (address ++ sig)) ≡ script_hex address sig
unfolding script_hex
hex-script address sig =
    hex_encode-append front (address ++ sig)
    ∙ ap₂ (λ x y. x ++ y) front-hex (hex_encode-append address sig)
    ∙ append_assoc registration_prefix version_codes _

length-script_hex :
    (address sig : Bytes)
    → length address ≡ 4
    → length sig ≡ 65
    → length (script_hex address sig) ≡ 158
unfolding script_hex version_codes
length-script_hex address sig a s = omega (
  arith,
  length-append (hex_encode address) (hex_encode sig),
  length-hex_encode address,
  length-hex_encode sig,
)

-- The script passes the test of the scan.
script-found :
    (address sig change : Bytes)
    → length address ≡ 4
    → length sig ≡ 65
    → registration_script (script_hex address sig ∷ change ∷ []) ≡ some (script_hex address sig)
unfolding registration_script script_hex
script-found address sig change a s =
    let l : length
          (registration_prefix ++ (version_codes ++ (hex_encode address ++ hex_encode sig)))
        ≡ 158 =
      length-script_hex address sig a s in
    let t : take 12
          (registration_prefix ++ (version_codes ++ (hex_encode address ++ hex_encode sig)))
        ≡ registration_prefix =
      refl in
    rw (l, t, bytes_eq_refl registration_prefix) refl

-- The registration that stands in a script.
abbrev pub registration : ℕ → Bytes → Bytes → Bytes → AddressRegistration
registration block_index address txid sig = record {
  address = address;
  block_height = block_index;
  tx_id = txid;
  sig = sig;
  version = 0;
}

script-read :
    (block_index : ℕ) (tx_id txid address sig : Bytes)
    → length tx_id ≡ 32
    → IsBytes 32 txid
    → IsBytes 4 address
    → IsBytes 65 sig
    → read_registration block_index tx_id (hex_encode txid) (script_hex address sig)
      ≡ ok (registration block_index address txid sig)
unfolding read_registration script_hex be
script-read block_index tx_id txid address sig n t a s =
    let h = hex_encode address in
    let g = hex_encode sig in
    let hl : length h ≡ 8 = omega (arith, length-hex_encode address, a.len) in
    let gl : length g ≡ 130 = omega (arith, length-hex_encode sig, s.len) in
    let l : length (registration_prefix ++ (version_codes ++ (h ++ g))) ≡ 158 =
      length-script_hex address sig a.len s.len in
    let zero_version : hex_decode version_codes ≡ some (0 ∷ 0 ∷ 0 ∷ 0 ∷ []) = version-decoded in
    rw
      (
        l,
        hex_decode-hex_encode txid t.each,
        slice-field (12 ∷ []) (registration_prefix ∷ []) 8 version_codes (h ++ g) (refl, tt)
            version-length,
        zero_version,
        slice-field (12 ∷ 8 ∷ []) (registration_prefix ∷ version_codes ∷ []) 8 h g
            (refl, (version-length, tt)) hl,
        hex_decode-hex_encode address a.each,
        slice-last (12 ∷ 8 ∷ 8 ∷ []) (registration_prefix ∷ version_codes ∷ h ∷ []) 130 g
            (refl, (version-length, (hl, tt))) gl,
        hex_decode-hex_encode sig s.each,
        copy-whole (replicate 4 0) address a.len,
        copy-whole tx_id txid (t.len ∙ sym n),
        copy-whole (replicate 65 0) sig s.len,
      )
      refl

-- A transaction whose first output is the script for an address of 4 bytes and a signature of 65, and
-- that has one output more, is found by the scan of its block: the address, the signature, the height
-- and the transaction id read back, with version 0, and the scan goes on with the other transactions.
pub scan_block-op_return_script :
    (block_index : ℕ) (tx_id txid address sig change : Bytes) (txs : List Tx)
    → length tx_id ≡ 32
    → IsBytes 32 txid
    → IsBytes 4 address
    → IsBytes 65 sig
    → (script : Bytes) × (op_return_script address sig ≡ some script)
      × (scan_block block_index tx_id
            (record { txid = hex_encode txid; outputs = hex_encode script ∷ change ∷ [] } ∷ txs)
          ≡ (scan_block block_index txid txs >>= λ found.
              ok (registration block_index address txid sig ∷ found.0, found.1)))
unfolding scan_block
scan_block-op_return_script block_index tx_id txid address sig change txs n t a s = (
  front ++ (address ++ sig),
  op_return_script-front address sig,
  rw
      (
        hex-script address sig,
        script-found address sig change a.len s.len,
        scan_block,
        script-read block_index tx_id txid address sig n t a s,
      )
      refl,
)
