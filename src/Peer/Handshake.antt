-- ===== src/Peer/Handshake.antt =====
-- offerPeerHandshake and acceptPeerHandshake of ldrlib/networking.go.
pub mod Exchange
pub mod Checked
use ld_routing.Base.{ℕ, ◌+◌, Bool, true, false, ◌||◌, List, [], ◌∷◌, ◌++◌}
use ld_routing.Base.Run.{Run, ok, fatal, ◌>>=◌, ◌>>◌}
use ld_routing.Base.Bytes.{Bytes, bytes_eq, slice}
use ld_routing.Db.{Db}
use ld_routing.Peer.Rsa.{Rsa, encrypt_rsa, decrypt_rsa}
use ld_routing.Db.Addresses.{is_node_registered}
use ld_routing.Db.Lnd.{Lnd, verify_message, get_local_node_neighbours_pub_keys}

abbrev pub rsa_key_size : ℕ
rsa_key_size = 459

abbrev pub signature_size : ℕ
signature_size = 65

abbrev pub aes_key_size : ℕ
aes_key_size = 16

abbrev pub aes_base_iv_size : ℕ
aes_base_iv_size = 12

abbrev pub aes_start_seq_size : ℕ
aes_start_seq_size = 12

-- What both sides end with.
pub record Session : Type 0 where
  pub session_key : Bytes
  pub base_iv : Bytes
  pub start_seq : Bytes
  pub peer_key : Bytes

abbrev pub fatal_unless : Bool → Run (Unit {0})
fatal_unless true = ok tt
fatal_unless false = fatal

unfoldable pub shares_channel : List Bytes → Bytes → Bool
shares_channel [] key = false
shares_channel (neighbour ∷ neighbours) key =
    bytes_eq neighbour key || shares_channel neighbours key

-- What both handshakes do with the peer's public key and its signature: the RSA key and the
-- lightning key of a neighbour that is registered, or the end of the process.
unfoldable pub check_peer : Db → Lnd → Bytes → Run (Bytes × Bytes)
check_peer db client key_and_signature = do
  peer_pub_key ← slice 0 rsa_key_size key_and_signature
  signature ← slice rsa_key_size (rsa_key_size + signature_size) key_and_signature
  (verified, lightning_key) ← verify_message client peer_pub_key signature
  fatal_unless verified
  neighbours ← get_local_node_neighbours_pub_keys client
  fatal_unless (shares_channel neighbours lightning_key)
  fatal_unless (is_node_registered db lightning_key)
  ok (peer_pub_key, lightning_key)

-- The session that the offering side makes, and the message with it.
unfoldable pub aes_info : Session → Bytes
aes_info session = session.session_key ++ (session.base_iv ++ session.start_seq)

unfoldable pub offer_session : Rsa → Bytes → Session → Run Bytes
offer_session rsa peer_pub_key session = encrypt_rsa rsa peer_pub_key (aes_info session)

-- The accepting side reads the session, and acknowledges with the AES key alone.
unfoldable pub accept_session : Rsa → Bytes → Bytes → Bytes → Bytes → Run (Session × Bytes)
accept_session rsa priv_key peer_pub_key lightning_key encrypted = do
  info ← decrypt_rsa rsa priv_key encrypted
  aes_key ← slice 0 aes_key_size info
  base_iv ← slice aes_key_size (aes_key_size + aes_base_iv_size) info
  start_seq ←
      slice (aes_key_size + aes_base_iv_size) (aes_key_size + aes_base_iv_size + aes_start_seq_size)
        info
  acknowledgement ← encrypt_rsa rsa peer_pub_key aes_key
  ok (
    record {
      session_key = aes_key;
      base_iv = base_iv;
      start_seq = start_seq;
      peer_key = lightning_key;
    },
    acknowledgement,
  )

-- The offering side compares the acknowledgement with the whole session info.
unfoldable pub confirm_session : Rsa → Bytes → Session → Bytes → Run Session
confirm_session rsa priv_key session acknowledgement = do
  message ← decrypt_rsa rsa priv_key acknowledgement
  fatal_unless (bytes_eq (aes_info session) message)
  ok session
