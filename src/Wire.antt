-- ===== src/Wire.antt =====
-- The wire and disk formats of ldrlib/utils.go.
pub mod Bits
pub mod Types
pub mod Codec
pub mod Hex
