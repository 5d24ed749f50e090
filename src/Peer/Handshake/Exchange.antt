-- ===== src/Peer/Handshake/Exchange.antt =====
-- The two sides of the handshake together: offerPeerHandshake and acceptPeerHandshake.
use ld_routing.Base.{
  ◌≡◌, ap, false, [], ◌∷◌, ◌++◌, arith, length, length-append, inl, inr, Bool-cases,
}
use ld_routing.Base.Run.{ok, fatal, ◌>>=◌}
use ld_routing.Base.Bytes.{Bytes, bytes_eq, bytes_eq_iff, slice}
use ld_routing.Base.Bytes.Cut.{slice-field, slice-last}
use ld_routing.Peer.Rsa.{Rsa, IsKeyPair, encrypt_rsa, decrypt_rsa-encrypt_rsa}
use ld_routing.Peer.Handshake.{Session, aes_info, offer_session, accept_session, confirm_session}

pub record IsSession (session : Session) : Type 0 where
  pub session_key : length session.session_key ≡ 16
  pub base_iv : length session.base_iv ≡ 12
  pub start_seq : length session.start_seq ≡ 12

length-aes_info : (s : Session) → IsSession s → length (aes_info s) ≡ 40
unfolding aes_info
length-aes_info s v = omega (
  arith,
  length-append s.session_key (s.base_iv ++ s.start_seq),
  length-append s.base_iv s.start_seq,
  v.session_key,
  v.base_iv,
  v.start_seq,
)

-- With a key pair that decrypts what it encrypts, the accepting side reads the session that was
-- offered, of sizes 16, 12 and 12, and answers with its AES key, encrypted for the key of the peer:
-- where that key is not one in PEM of RSA, or the encryption fails, it ends as encryptRSA does.
pub accept_session-offer_session :
    (rsa : Rsa) (priv_key pub_key peer_pub_key lightning_key : Bytes) (s : Session)
    → IsKeyPair rsa priv_key pub_key
    → IsSession s
    → (offer_session rsa pub_key s >>= λ offered.
        accept_session rsa priv_key peer_pub_key lightning_key offered)
      ≡ (encrypt_rsa rsa peer_pub_key s.session_key >>= λ acknowledgement.
          ok (record s { peer_key = lightning_key }, acknowledgement))
unfolding accept_session offer_session slice aes_info
accept_session-offer_session rsa priv_key pub_key peer_pub_key lightning_key s pair v =
    let k = s.session_key in
    let b = s.base_iv in
    let (sealed, e, d) =
      decrypt_rsa-encrypt_rsa rsa priv_key pub_key (aes_info s) pair
        (omega (arith, length-aes_info s v)) in
    rw (
      e,
      d,
      slice-field [] [] 16 k (b ++ s.start_seq) tt v.session_key,
      slice-field (16 ∷ []) (k ∷ []) 12 b s.start_seq (v.session_key, tt) v.base_iv,
      slice-last (16 ∷ 12 ∷ []) (k ∷ b ∷ []) 12 s.start_seq (v.session_key, (v.base_iv, tt))
          v.start_seq,
    )

short-bytes_eq : (a b : Bytes) → length b ≡ 16 → length a ≡ 40 → bytes_eq a b ≡ false
short-bytes_eq a b hb ha = elim (Bool-cases (bytes_eq a b)) [
  | inl e ↦ let p : length a ≡ length b = ap length ((bytes_eq_iff a b).0 e) in absurd (omega arith)
  | inr e ↦ e
]

-- With key pairs that decrypt what they encrypt and a session of sizes 16, 12 and 12, the offering
-- side refuses the acknowledgement of its own session: the exchange ends its process.
pub confirm_session-accept_session :
    (rsa : Rsa) (priv_offer pub_offer priv_accept pub_accept lightning_key : Bytes) (s : Session)
    → IsKeyPair rsa priv_offer pub_offer
    → IsKeyPair rsa priv_accept pub_accept
    → IsSession s
    → (offer_session rsa pub_accept s >>= λ offered.
        accept_session rsa priv_accept pub_offer lightning_key offered >>= λ accepted.
        confirm_session rsa priv_offer s accepted.1)
      ≡ fatal
unfolding confirm_session offer_session
confirm_session-accept_session rsa priv_offer pub_offer priv_accept pub_accept lightning_key s offer
      accept v =
    let (sealed, e, d) =
      decrypt_rsa-encrypt_rsa rsa priv_offer pub_offer s.session_key offer
        (omega (arith, v.session_key)) in
    let (offered, e2, _) =
      decrypt_rsa-encrypt_rsa rsa priv_accept pub_accept (aes_info s) accept
        (omega (arith, length-aes_info s v)) in
    let answered =
      accept_session-offer_session rsa priv_accept pub_accept pub_offer lightning_key s accept v in
    rw (
      e2,
      rw (e2, e, offer_session) at answered,
      d,
      short-bytes_eq (aes_info s) s.session_key v.session_key (length-aes_info s v),
    )
