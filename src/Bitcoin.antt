-- ===== src/Bitcoin.antt =====
-- ldrlib/bitcoin.go: the registration of an address in a transaction, and the scan of the blocks
-- for such transactions. The bitcoin client's answers are the functions of `Bitcoind`, `none` where
-- a call returns an error; the hexadecimal strings are lists of character codes.
pub mod Funding
pub mod Script
pub mod Broadcast
use Prim.Native.String.{String}
use Prim.Native.Char.{code}
use ld_routing.Base.{
  ℕ, zero, suc, ◌+◌, ◌-◌, ◌&&◌, Option, none, some, List, [], ◌∷◌, ◌++◌, ◌==◌, if◌then◌else◌,
  length, take, drop, replicate,
}
use ld_routing.Base.Int.{ℤ, pos, negsuc, ltb_ℤ}
use ld_routing.Base.Run.{Run, ok, err, no_spendable_outputs, ◌>>=◌, or_fatal}
use ld_routing.Base.Bytes.{Bytes, bytes_eq, be, slice}
use ld_routing.Wire.Hex.{hex_decode}

pub record AddressRegistration : Type 0 where
  pub address : Bytes
  pub block_height : ℕ
  pub tx_id : Bytes
  pub sig : Bytes
  pub version : ℕ

-- The fields of a transaction and of a block that the code reads: `outputs` are the scripts in hex.
pub record Tx : Type 0 where
  pub txid : Bytes
  pub outputs : List Bytes

pub record Bitcoind : Type 0 where
  pub get_block_count : Option ℕ
  pub get_block_hash : ℕ → Option Bytes
  pub get_block : Bytes → Option (List Tx)

abbrev pub codes : String → Bytes
codes String.[] = []
codes (String.◌∷◌ c s) = code c ∷ codes s

-- copy(dst[:], src)
abbrev pub copy : Bytes → Bytes → Bytes
copy dst src = take (length dst) src ++ drop (length src) dst

-- The prefix that the scan looks for.
abbrev pub registration_prefix : Bytes
registration_prefix = codes "6a4c4c6c6172"

-- The test on the outputs of a transaction, with the script where it passes.
unfoldable pub registration_script : List Bytes → Option Bytes
registration_script (script ∷ change ∷ []) =
    if length script == 158 && bytes_eq (take 12 script) registration_prefix
    then some script
    else none
registration_script _ = none

-- The parts of a registration script. `tx_id` is the array that the loop copies into.
unfoldable pub read_registration : ℕ → Bytes → Bytes → Bytes → Run AddressRegistration
read_registration block_index tx_id txid script = do
  tx_id_bytes ← or_fatal (hex_decode txid)
  version_hex ← slice 12 20 script
  version_bytes ← or_fatal (hex_decode version_hex)
  address_hex ← slice 20 28 script
  address_bytes ← or_fatal (hex_decode address_hex)
  signature_hex ← slice 28 (length script) script
  signature_bytes ← or_fatal (hex_decode signature_hex)
  ok (record {
    address = copy (replicate 4 0) address_bytes;
    block_height = block_index;
    tx_id = copy tx_id tx_id_bytes;
    sig = copy (replicate 65 0) signature_bytes;
    version = be version_bytes;
  })

-- The loop over a block's transactions, with the array for the transaction id.
unfoldable pub scan_block : ℕ → Bytes → List Tx → Run (List AddressRegistration × Bytes)
scan_block block_index tx_id [] = ok ([], tx_id)
scan_block block_index tx_id (tx ∷ txs) = elim (registration_script tx.outputs) [
  | none ↦ scan_block block_index tx_id txs
  | some script ↦ do
    registration ← read_registration block_index tx_id tx.txid script
    (rest, last) ← scan_block block_index registration.tx_id txs
    ok (registration ∷ rest, last)
]

-- The loop over the blocks, `rounds` from `block_index`.
unfoldable pub scan_blocks : Bitcoind → ℕ → ℕ → Bytes → Run (List AddressRegistration)
scan_blocks bitcoind zero block_index tx_id = ok []
scan_blocks bitcoind (suc rounds) block_index tx_id = do
  block_hash ← or_fatal (bitcoind.get_block_hash block_index)
  txs ← or_fatal (bitcoind.get_block block_hash)
  (found, last) ← scan_block block_index tx_id txs
  rest ← scan_blocks bitcoind rounds (block_index + 1) last
  ok (found ++ rest)

unfoldable pub get_new_address_registrations : Bitcoind → ℕ → ℕ → Run (List AddressRegistration)
get_new_address_registrations bitcoind from_block to_block =
    scan_blocks bitcoind (to_block + 1 - from_block) from_block (replicate 32 0)

-- BroadcastNewAddressTx: the script of the first output.
unfoldable pub op_return_script : Bytes → Bytes → Option Bytes
op_return_script address signed_address = elim (hex_decode (codes "6a4c4c6c617200000000")) [
  | none ↦ none
  | some head ↦ some (head ++ (address ++ signed_address))
]

-- An unspent output: `amount_sats` is int64(Amount * 10^8).
pub record Unspent : Type 0 where
  pub tx_id : Bytes
  pub vout : ℕ
  pub amount_sats : ℤ
  pub address : Bytes

-- The outlay of a registration: 100 for the output and 1000 for the fee.
abbrev pub outlay : ℕ
outlay = 100 + 1000

-- An amount that is above the outlay, less the outlay.
unfoldable pub less_outlay : ℤ → ℤ
less_outlay (pos n) = pos (n - outlay)
less_outlay (negsuc n) = negsuc (n + outlay)

-- The loop over the unspent outputs: the one in use when the loop ends, and the change.
unfoldable pub choose_unspent : Unspent → List Unspent → Unspent × ℤ
unfolding less_outlay
choose_unspent uns_out [] = (
  uns_out,
  if ltb_ℤ (pos outlay) uns_out.amount_sats then less_outlay uns_out.amount_sats else pos 0,
)
choose_unspent uns_out (next ∷ uns_outs) =
    let rest = choose_unspent next uns_outs in
    if ltb_ℤ (pos outlay) uns_out.amount_sats
    then (uns_out, less_outlay uns_out.amount_sats)
    else rest

-- The choice of the input and of the change, with the error of an empty wallet.
unfoldable pub registration_input : List Unspent → Run (Unspent × ℤ)
registration_input [] = err no_spendable_outputs
registration_input (uns_out ∷ uns_outs) = ok (choose_unspent uns_out uns_outs)
