-- ===== src/Peer/Sequence.antt =====
-- incrementSeqNumber and getNonce of ldrlib/crypto.go.
pub mod Count
pub mod Nonce
use ld_routing.Base.{
  ℕ, zero, suc, ◌+◌, Option, none, some, [], ◌∷◌, bit_xor, ltb, if◌then◌else◌, length, get_elem?,
}
use ld_routing.Base.Run.{Run, ok, panic, ◌>>=◌}
use ld_routing.Base.Bytes.{Bytes}

-- `bs[i] = b`
abbrev pub set : Bytes → ℕ → ℕ → Bytes
set [] i b = []
set (x ∷ bs) zero b = b ∷ bs
set (x ∷ bs) (suc i) b = x ∷ set bs i b

-- One digit of the loop; `rest` is the loop at the index before.
abbrev pub bump_digit : Bytes → ℕ → Option ℕ → Bytes → Bytes
bump_digit seq index none rest = seq
bump_digit seq index (some v) rest = if ltb v 255 then set seq index (v + 1) else rest

-- The loop from `index`, here the number of digits up to it.
unfoldable pub increment_from : ℕ → Bytes → Bytes
increment_from zero seq = seq
increment_from (suc index) seq =
    let rest = increment_from index (set seq index 0) in
    bump_digit seq index (get_elem? seq index) rest

unfoldable pub increment_seq_number : Bytes → Bytes
unfolding increment_from
increment_seq_number seq = increment_from (length seq) seq

-- An index past the end of the sequence number panics.
unfoldable pub get_nonce : Bytes → Bytes → Run Bytes
get_nonce [] seq = ok []
get_nonce (b ∷ base_iv) [] = panic
get_nonce (b ∷ base_iv) (s ∷ seq) = do rest ← get_nonce base_iv seq; ok (bit_xor b s ∷ rest)
