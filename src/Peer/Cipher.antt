-- ===== src/Peer/Cipher.antt =====
-- encryptAES and decryptAES of ldrlib/crypto.go. The packages crypto/aes and crypto/cipher are not
-- in the repository: they are the fields of `Aes`.
use ld_routing.Base.{◌+◌, ◌≡◌, Bool, true, false, Option, some, length}
use ld_routing.Base.Run.{Run, ok, panic, ◌>>◌, or_fatal}
use ld_routing.Base.Bytes.{Bytes}
use ld_routing.Peer.Handshake.{fatal_unless}

-- `takes_key` is whether aes.NewCipher and cipher.NewGCM return no error, `takes_nonce` whether Seal
-- and Open accept the size of the nonce, and `open_` is `none` where Open returns an error.
pub record Aes : Type 0 where
  pub takes_key : Bytes → Bool
  pub takes_nonce : Bytes → Bool
  pub seal : Bytes → Bytes → Bytes → Bytes
  pub open_ : Bytes → Bytes → Bytes → Option Bytes

-- What the packages document of AES-128 in Galois counter mode: keys of 16 bytes and nonces of 12
-- are accepted, a tag of 16 bytes is added, and what is sealed opens with its key and nonce.
pub record IsGcm (aes : Aes) : Type 0 where
  pub takes_key : (key : Bytes) → length key ≡ 16 → aes.takes_key key ≡ true
  pub takes_nonce : (nonce : Bytes) → length nonce ≡ 12 → aes.takes_nonce nonce ≡ true
  pub tag : (key nonce message : Bytes) → length (aes.seal key nonce message) ≡ length message + 16
  pub opens :
      (key nonce message : Bytes) → aes.open_ key nonce (aes.seal key nonce message) ≡ some message

abbrev pub panic_unless : Bool → Run (Unit {0})
panic_unless true = ok tt
panic_unless false = panic

unfoldable pub encrypt_aes : Aes → Bytes → Bytes → Bytes → Run Bytes
encrypt_aes aes key nonce message = do
  fatal_unless (aes.takes_key key)
  panic_unless (aes.takes_nonce nonce)
  ok (aes.seal key nonce message)

unfoldable pub decrypt_aes : Aes → Bytes → Bytes → Bytes → Run Bytes
decrypt_aes aes key nonce message = do
  fatal_unless (aes.takes_key key)
  panic_unless (aes.takes_nonce nonce)
  or_fatal (aes.open_ key nonce message)
