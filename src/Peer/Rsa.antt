-- ===== src/Peer/Rsa.antt =====
-- encryptRSA, decryptRSA and the keys in PEM of ldrlib/crypto.go. The packages encoding/pem,
-- crypto/x509 and crypto/rsa are the fields of `Rsa`, `none` where they return an error.
use ld_routing.Base.{◌≤◌, ◌≡◌, refl, Bool, false, Option, some, List, if◌then◌else◌, length}
use ld_routing.Base.Run.{Run, ok, ◌>>=◌, or_panic, or_fatal}
use ld_routing.Base.Bytes.{Bytes}

-- pem.Block
pub record PemBlock : Type 0 where
  pub block_type : Bytes
  pub headers : List (Bytes × Bytes)
  pub contents : Bytes

-- A parsed key is the bytes that stand for it. A public key that is not one of RSA is parsed without
-- an error, as the `none` inside. Encryption takes its random bytes in, once for all calls.
pub record Rsa : Type 0 where
  pub pem_decode : Bytes → Option PemBlock
  pub is_encrypted_pem_block : PemBlock → Bool
  pub decrypt_pem_block : PemBlock → Option Bytes
  pub parse_pkix_public_key : Bytes → Option (Option Bytes)
  pub parse_pkcs1_private_key : Bytes → Option Bytes
  pub encrypt_oaep : Bytes → Bytes → Option Bytes
  pub decrypt_oaep : Bytes → Bytes → Option Bytes

-- The bytes of a block in PEM: what is not in PEM is a nil block, which panics.
unfoldable pub block_bytes : Rsa → Bytes → Run Bytes
block_bytes rsa pem = do
  block ← or_panic (rsa.pem_decode pem)
  if rsa.is_encrypted_pem_block block
      then or_fatal (rsa.decrypt_pem_block block)
      else ok block.contents

unfoldable pub bytes_to_private_rsa_key : Rsa → Bytes → Run Bytes
unfolding block_bytes
bytes_to_private_rsa_key rsa priv = do
  b ← block_bytes rsa priv
  or_fatal (rsa.parse_pkcs1_private_key b)

unfoldable pub bytes_to_public_rsa_key : Rsa → Bytes → Run Bytes
unfolding block_bytes
bytes_to_public_rsa_key rsa pub_ = do
  b ← block_bytes rsa pub_
  ifc ← or_fatal (rsa.parse_pkix_public_key b)
  or_fatal ifc

unfoldable pub encrypt_rsa : Rsa → Bytes → Bytes → Run Bytes
unfolding bytes_to_public_rsa_key
encrypt_rsa rsa pubkey message = do
  rsa_pub_key ← bytes_to_public_rsa_key rsa pubkey
  or_fatal (rsa.encrypt_oaep rsa_pub_key message)

unfoldable pub decrypt_rsa : Rsa → Bytes → Bytes → Run Bytes
unfolding bytes_to_private_rsa_key
decrypt_rsa rsa privkey message = do
  rsa_priv_key ← bytes_to_private_rsa_key rsa privkey
  or_fatal (rsa.decrypt_oaep rsa_priv_key message)

-- What the packages document of a pair of keys in PEM: both parse, and what is encrypted for the one,
-- up to the size of the session info, is decrypted by the other.
pub record IsKeyPair (rsa : Rsa) (priv_key pub_key : Bytes) : Type 0 where
  pub pub_block : PemBlock
  pub priv_block : PemBlock
  pub public : Bytes
  pub private : Bytes
  pub pub_decodes : rsa.pem_decode pub_key ≡ some pub_block
  pub priv_decodes : rsa.pem_decode priv_key ≡ some priv_block
  pub pub_plain : rsa.is_encrypted_pem_block pub_block ≡ false
  pub priv_plain : rsa.is_encrypted_pem_block priv_block ≡ false
  pub pub_parses : rsa.parse_pkix_public_key pub_block.contents ≡ some (some public)
  pub priv_parses : rsa.parse_pkcs1_private_key priv_block.contents ≡ some private
  pub opens :
      (message : Bytes)
      → length message ≤ 40
      → (sealed : Bytes) × (rsa.encrypt_oaep public message ≡ some sealed)
        × (rsa.decrypt_oaep private sealed ≡ some message)

-- A message for a key pair is encrypted, and decrypted to itself.
pub decrypt_rsa-encrypt_rsa :
    (rsa : Rsa) (priv_key pub_key message : Bytes)
    → IsKeyPair rsa priv_key pub_key
    → length message ≤ 40
    → (sealed : Bytes) × (encrypt_rsa rsa pub_key message ≡ ok sealed)
      × (decrypt_rsa rsa priv_key sealed ≡ ok message)
unfolding encrypt_rsa decrypt_rsa bytes_to_public_rsa_key bytes_to_private_rsa_key block_bytes
decrypt_rsa-encrypt_rsa rsa priv_key pub_key message pair short =
    let (sealed, e, d) = pair.opens message short in
    (
      sealed,
      rw (pair.pub_decodes, pair.pub_plain, pair.pub_parses, e) refl,
      rw (pair.priv_decodes, pair.priv_plain, pair.priv_parses, d) refl,
    )
