-- ===== src/Examples/Clients.antt =====
-- client.go and the transactions of ldrlib/bitcoin.go at concrete values.
use mathlib.Core.Option
use ld_routing.Base.{◌≡◌, refl, true, some, [], ◌∷◌, arith, replicate, List}
use ld_routing.Base.Int.{pos}
use ld_routing.Base.Run.{ok, ◌>>=◌}
use ld_routing.Base.Bytes.{Bytes}
use ld_routing.Wire.Hex.{hex_encode, hex_decode}
use ld_routing.Db.{create_db}
use ld_routing.Db.Lnd.{Lnd, sign_message, get_local_node_neighbours_pub_keys}
use ld_routing.Bitcoin.{
  Unspent, op_return_script, registration_input, choose_unspent, less_outlay, scan_block,
}
use ld_routing.Bitcoin.Script.{registration}
use ld_routing.Bitcoin.Broadcast.{
  MsgTx, Wallet, registration_tx, broadcast_new_address_tx, mined, scan_block-registration_tx,
}
use ld_routing.Client.{
  Parsers, get_valid_address_from_user, register, register_address_menu, address_options,
  address_menu, address_registration_menu,
}
use ld_routing.Client.Options.{Any, Suggests}
use ld_routing.Client.Choice.{IsChosen, address_registration_menu-IsChosen}
use ld_routing.Examples.Responses.{address_, lnd_}

abbrev sig_ : Bytes
sig_ = replicate 65 200

-- A lightning node that signs.
abbrev signing : Lnd
signing = record lnd_ { sign_message = λ message. some sig_ }

abbrev large : Unspent
large = record { tx_id = replicate 32 7; vout = 1; amount_sats = pos 5000; address = 4 ∷ [] }

abbrev wallet_ : Wallet
wallet_ = record {
  get_block_count = some 600000;
  list_unspent = some (large ∷ []);
  pay_to_address = λ address. some (118 ∷ address);
  hash_from_string = λ s. some s;
  serialize = λ tx. some (1 ∷ 0 ∷ []);
  sign_raw_transaction = λ tx. some tx;
  send_raw_transaction = λ tx. some (replicate 64 98);
  wallet_passphrase = λ passphrase seconds. true;
}

-- The script of the registration.
abbrev script_ : Bytes
script_ = 106 ∷ 76 ∷ 76 ∷ 108 ∷ 97 ∷ 114 ∷ 0 ∷ 0 ∷ 0 ∷ 0 ∷ 10 ∷ 0 ∷ 255 ∷ 1 ∷ sig_

abbrev tx_ : MsgTx
tx_ = record {
  outputs = (pos 100, script_) ∷ (pos 3900, 118 ∷ 4 ∷ []) ∷ [];
  previous = (replicate 32 7, 1);
}

made : registration_tx wallet_ signing address_ large (pos 3900) ≡ ok tx_
unfolding registration_tx sign_message op_return_script hex_decode Option.bind
made = refl

scan_block-registration_tx_example :
    scan_block 600001 (replicate 32 0) (mined (replicate 32 9) tx_ ∷ []) ≡ (
      scan_block 600001 (replicate 32 9) [] >>= λ found.
      ok (registration 600001 address_ (replicate 32 9) sig_ ∷ found.0, found.1))
unfolding sign_message
scan_block-registration_tx_example =
    scan_block-registration_tx wallet_ signing address_ sig_ (replicate 32 0) (replicate 32 9) large
      (pos 3900) tx_ 600001 [] made refl (record { len = refl; each = ground arith })
      (record { len = refl; each = ground arith }) (record { len = refl; each = ground arith }) refl

-- Every text reads as the same address.
abbrev parsers_ : Parsers
parsers_ = record { atoi = λ text. some (pos 0); parse_ip = λ text. some address_ }

address_registration_menu-IsChosen_example :
    (neighbours : List Bytes) × (get_local_node_neighbours_pub_keys signing ≡ ok neighbours)
    × IsChosen
        (λ a. Any (Suggests (create_db [] []) a) neighbours)
        parsers_
        wallet_
        signing
        ((49 ∷ []) ∷ [])
        address_
unfolding address_registration_menu get_local_node_neighbours_pub_keys address_options address_menu
    register_address_menu get_valid_address_from_user register broadcast_new_address_tx
    registration_input choose_unspent less_outlay registration_tx sign_message op_return_script
    hex_decode hex_encode Option.bind
address_registration_menu-IsChosen_example =
    address_registration_menu-IsChosen parsers_ wallet_ signing (create_db [] []) ((49 ∷ []) ∷ [])
      [] address_ refl
