-- ===== src/Bitcoin/Broadcast.antt =====
-- BroadcastNewAddressTx and UnlockWallet of ldrlib/bitcoin.go. The answers of the wallet, and the
-- packages that take addresses, hashes and transactions apart and put them together, are the fields of
-- `Wallet`: `none` where a call returns an error.
use ld_routing.Base.{ℕ, Bool, ◌≡◌, sym, ◌∙◌, ap, Option, List, [], ◌∷◌, length}
use ld_routing.Base.Int.{ℤ, pos}
use ld_routing.Base.Run.{Run, ok, ◌>>=◌, or_err, or_fatal, >>=-eq-ok}
use ld_routing.Base.Bytes.{Bytes, IsBytes}
use ld_routing.Wire.Hex.{hex_encode}
use ld_routing.Db.Lnd.{Lnd, sign_message}
use ld_routing.Bitcoin.{Tx, Unspent, op_return_script, registration_input, scan_block}
use ld_routing.Bitcoin.Script.{registration, scan_block-op_return_script}

-- The two outputs, with their values and scripts, and the output that is spent.
pub record MsgTx : Type 0 where
  pub outputs : List (ℤ × Bytes)
  pub previous : Bytes × ℕ

pub record Wallet : Type 0 where
  pub get_block_count : Option ℕ
  pub list_unspent : Option (List Unspent)
  -- btcutil.DecodeAddress and txscript.PayToAddrScript
  pub pay_to_address : Bytes → Option Bytes
  -- chainhash.NewHashFromStr
  pub hash_from_string : Bytes → Option Bytes
  pub serialize : MsgTx → Option Bytes
  pub sign_raw_transaction : Bytes → Option Bytes
  pub send_raw_transaction : Bytes → Option Bytes
  pub wallet_passphrase : Bytes → ℕ → Bool

-- UnlockWallet: whether there was no error, for ten seconds.
unfoldable pub unlock_wallet : Wallet → Bytes → Bool
unlock_wallet wallet passphrase = wallet.wallet_passphrase passphrase 10

-- The transaction that registers an address.
unfoldable pub registration_tx : Wallet → Lnd → Bytes → Unspent → ℤ → Run MsgTx
registration_tx wallet ln_client address uns_out change_amount = do
  signed_address ← sign_message ln_client address
  script ← or_err (op_return_script address signed_address)
  p2pkh_script ← or_err (wallet.pay_to_address uns_out.address)
  tx_hash ← or_err (wallet.hash_from_string uns_out.tx_id)
  ok (record {
    outputs = (pos 100, script) ∷ (change_amount, p2pkh_script) ∷ [];
    previous = (tx_hash, uns_out.vout);
  })

-- The hash of the transaction that was sent. A failed ListUnspent ends the process.
unfoldable pub broadcast_new_address_tx : Wallet → Lnd → Bytes → Run Bytes
unfolding registration_tx
broadcast_new_address_tx wallet ln_client address = do
  block_count ← or_err wallet.get_block_count
  uns_outs ← or_fatal wallet.list_unspent
  (uns_out, change_amount) ← registration_input uns_outs
  tx ← registration_tx wallet ln_client address uns_out change_amount
  serialized_tx ← or_err (wallet.serialize tx)
  signed_tx ← or_err (wallet.sign_raw_transaction (hex_encode serialized_tx))
  or_err (wallet.send_raw_transaction signed_tx)

ok-injective : {A : Type 0} {a b : A} → ok a ≡ ok b → a ≡ b
ok-injective h = cc

-- A transaction as a block gives it, with its id and its scripts in hex.
scripts_in_hex : List (ℤ × Bytes) → List Bytes
scripts_in_hex [] = []
scripts_in_hex ((value, script) ∷ outputs) = hex_encode script ∷ scripts_in_hex outputs

unfoldable pub mined : Bytes → MsgTx → Tx
unfolding scripts_in_hex
mined txid tx = record { txid = hex_encode txid; outputs = scripts_in_hex tx.outputs }

-- The transaction that registers an address of 4 bytes, with a signature of 65, is found by the scan
-- of a block that it is in, before other transactions: the scan reads the address, its signature, the
-- height, the transaction id and version 0.
pub scan_block-registration_tx :
    (wallet : Wallet) (ln : Lnd) (address sig tx_id txid : Bytes) (uns_out : Unspent) (change : ℤ)
    (tx : MsgTx) (block_index : ℕ) (txs : List Tx)
    → registration_tx wallet ln address uns_out change ≡ ok tx
    → sign_message ln address ≡ ok sig
    → IsBytes 4 address
    → IsBytes 65 sig
    → IsBytes 32 txid
    → length tx_id ≡ 32
    → scan_block block_index tx_id (mined txid tx ∷ txs) ≡ (
        scan_block block_index txid txs >>= λ found.
        ok (registration block_index address txid sig ∷ found.0, found.1))
unfolding registration_tx mined scripts_in_hex
scan_block-registration_tx wallet ln address sig tx_id txid uns_out change tx block_index txs e
      signed a s t n =
    let (made, e1, h1) =
      >>=-eq-ok (or_err (op_return_script address sig)) _ (rw (signed, registration_tx) at e) in
    let (change_script, _, h2) = >>=-eq-ok (or_err (wallet.pay_to_address uns_out.address)) _ h1 in
    let (tx_hash, _, h3) = >>=-eq-ok (or_err (wallet.hash_from_string uns_out.tx_id)) _ h2 in
    let (script, found, scanned) =
      scan_block-op_return_script block_index tx_id txid address sig (hex_encode change_script) txs
        n t a s in
    let same : script ≡ made = ok-injective (rw found at e1) in
    let outputs : (pos 100, script) ∷ (change, change_script) ∷ [] ≡ tx.outputs =
      ap (λ m. (pos 100, m) ∷ (change, change_script) ∷ []) same
      ∙ ap (λ (m : MsgTx). m.outputs) (ok-injective h3) in
    ap
      (λ os.
        scan_block block_index tx_id
          (record { txid = hex_encode txid; outputs = scripts_in_hex os } ∷ txs))
      (sym outputs)
    ∙ scanned
