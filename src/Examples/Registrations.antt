-- ===== src/Examples/Registrations.antt =====
-- ldrlib/bitcoin.go at concrete transactions, and the sequence numbers of ldrlib/crypto.go.
use ld_routing.Base.{◌≡◌, ◌+◌, ◌%◌, ◌^◌, refl, ◌⊎◌, [], ◌∷◌, arith, replicate}
use ld_routing.Base.Int.{pos}
use ld_routing.Base.Bytes.{Bytes, be}
use ld_routing.Bitcoin.{Unspent, choose_unspent}
use ld_routing.Bitcoin.Funding.{FirstThatPays, NonePays, choose_unspent-cases}
use ld_routing.Peer.Sequence.{increment_seq_number}
use ld_routing.Peer.Sequence.Count.{be-increment_seq_number}

abbrev tx_ : Bytes
tx_ = replicate 32 7

abbrev address_ : Bytes
address_ = 10 ∷ 0 ∷ 255 ∷ 1 ∷ []

abbrev sig_ : Bytes
sig_ = replicate 65 200

abbrev nothing_yet : Bytes
nothing_yet = replicate 32 0

abbrev small : Unspent
small = record { tx_id = tx_; vout = 0; amount_sats = pos 1100; address = [] }

abbrev large : Unspent
large = record { tx_id = tx_; vout = 1; amount_sats = pos 5000; address = [] }

choose_unspent-cases_example :
    FirstThatPays (small ∷ large ∷ []) (choose_unspent small (large ∷ []))
    ⊎ NonePays small (large ∷ []) (choose_unspent small (large ∷ []))
choose_unspent-cases_example = choose_unspent-cases small (large ∷ [])

abbrev seq_ : Bytes
seq_ = replicate 12 255

be-increment_seq_number_example : be (increment_seq_number seq_) ≡ (be seq_ + 1) % 2 ^ 96
be-increment_seq_number_example =
    be-increment_seq_number seq_ (record { len = refl; each = ground arith })
