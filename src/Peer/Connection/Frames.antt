-- ===== src/Peer/Connection/Frames.antt =====
-- Messages on a connection of ldrlib/networking.go: what one peer sends, the other reads.
use ld_routing.Base.{
  ℕ, zero, suc, ◌%◌, ◌^◌, ◌<◌, ◌≡◌, refl, sym, ◌∙◌, ap, some, [], ◌∷◌, ◌++◌, length, drop, arith,
  append-nil, append_assoc, take-append-length, drop-append-length, replicate,
}
use ld_routing.Base.Run.{ok}
use ld_routing.Base.Bytes.{Bytes, put_be, length-put_be, be-put_be_two}
use ld_routing.Peer.Sequence.{increment_seq_number}
use ld_routing.Peer.Sequence.Nonce.{nonce_of, get_nonce-nonce_of, length-nonce_of}
use ld_routing.Peer.Cipher.{Aes, IsGcm, encrypt_aes}
use ld_routing.Peer.Connection.{ConnInfo, frame, send_message}
use ld_routing.Peer.Connection.Loop.{read, read_message}

length-replicate : (n : ℕ) → length {A = ℕ} (replicate n 0) ≡ n
length-replicate zero = refl
length-replicate (suc n) = ap suc (length-replicate n)

-- A Read takes what is in front.
read-append :
    (n : ℕ) (front rest : Bytes) → length front ≡ n → read n (front ++ rest) ≡ some (front, rest)
unfolding read
read-append zero [] rest h = refl
read-append zero (b ∷ front) rest h = absurd (omega (arith, h))
read-append (suc n) [] rest h = absurd (omega (arith, h))
read-append (suc n) (b ∷ front) rest h =
    let e : length front ≡ n = omega (arith, h) in
    let all : drop n (replicate n 0) ≡ [] =
      rw append-nil at (drop-append-length (replicate n 0) [] n (length-replicate n)) in
    rw
      (
        length-replicate n,
        take-append-length front rest n e,
        e,
        all,
        drop-append-length front rest n e,
        append-nil,
      )
      refl

-- A message of fewer than 2^16 bytes is read off the stream as it was framed.
pub read_message-frame :
    (encrypted rest : Bytes)
    → length encrypted < 2 ^ 16
    → read_message (frame encrypted ++ rest) ≡ some (encrypted, rest)
unfolding read_message frame
read_message-frame encrypted rest h =
    let size = put_be 2 (length encrypted % 2 ^ 16) in
    let small : length encrypted % 2 ^ 16 ≡ length encrypted = omega (arith, h) in
    rw
      (
        append_assoc size encrypted rest,
        read-append 2 size (encrypted ++ rest) (length-put_be 2 (length encrypted % 2 ^ 16)),
        small,
        be-put_be_two (length encrypted) h,
        read_message,
      )
      (read-append (length encrypted) encrypted rest refl)

-- What a session of the right sizes does when it sends a message.
abbrev pub advance : Aes → ConnInfo → Bytes → ConnInfo
advance aes conn message = record conn {
  seq_number = increment_seq_number conn.seq_number;
  sent =
      conn.sent
      ++ frame (aes.seal conn.session_key (nonce_of conn.base_iv conn.seq_number) message);
}

pub send_message-advance :
    (aes : Aes) (conn : ConnInfo) (message : Bytes)
    → IsGcm aes
    → length conn.session_key ≡ 16
    → length conn.base_iv ≡ 12
    → length conn.seq_number ≡ 12
    → send_message aes conn.session_key conn.base_iv conn message ≡ ok (advance aes conn message)
unfolding send_message encrypt_aes
send_message-advance aes conn message gcm hk hi hs =
    let same : length conn.base_iv ≡ length conn.seq_number = hi ∙ sym hs in
    rw
      (
        get_nonce-nonce_of conn.base_iv conn.seq_number same,
        gcm.takes_key conn.session_key hk,
        gcm.takes_nonce (nonce_of conn.base_iv conn.seq_number)
            (length-nonce_of conn.base_iv conn.seq_number same ∙ hi),
      )
      refl
