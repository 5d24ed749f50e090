-- ===== src/Peer.antt =====
-- ldrlib/crypto.go and ldrlib/networking.go: the connection of two peers.
pub mod Sequence
pub mod Handshake
pub mod Cipher
pub mod Rsa
pub mod Connection
pub mod Listen
