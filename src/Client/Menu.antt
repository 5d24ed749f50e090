-- ===== src/Client/Menu.antt =====
-- optionMenu and setupSigTermHandler of client.go. What is only printed is left out.
use ld_routing.Base.{Option, none, some, List, [], ◌∷◌, ◌==◌, if◌then◌else◌}
use ld_routing.Base.Int.{ℤ, pos, negsuc}
use ld_routing.Base.Run.{Run, ok, ◌>>=◌, fatal_on_error, or_fatal}
use ld_routing.Base.Bytes.{Bytes}
use ld_routing.Db.Addresses.{is_address_registered, get_address_node}
use ld_routing.Db.Disk.{save_routing_db_to_file}
use ld_routing.Db.Lnd.{Lnd}
use ld_routing.Bitcoin.Broadcast.{Wallet, unlock_wallet}
use ld_routing.Route.Search.{or_unchanged, get_route_auto, get_route_manual}
use ld_routing.Peer.Cipher.{Aes}
use ld_routing.Peer.Rsa.{Rsa}
use ld_routing.Peer.Connection.{Node}
use ld_routing.Peer.Listen.{Network, connect_to_peer}
use ld_routing.Client.{Parsers, read_line, get_valid_address_from_user}

-- What one round of the menu needs from outside: the packages, the other nodes, the random token of a
-- search, and the bytes that its destination sends.
pub record Outside : Type 0 where
  pub parsers : Parsers
  pub aes : Aes
  pub rsa : Rsa
  pub network : Network
  pub token : Bytes
  pub incoming : Bytes

-- How a round ends: with the next round, in a prompt that never ends, or with os.Exit(0).
pub data MenuTurn : Type 0 where
  next_round : Node → List Bytes → MenuTurn
  prompts : MenuTurn
  exits : Node → MenuTurn

-- SaveRoutingDBToFile and os.Exit(0), by option 0 and by a signal.
unfoldable pub save_and_exit : Node → MenuTurn
save_and_exit node = exits (record node { db = save_routing_db_to_file node.db })

-- An option that asks for an address first.
unfoldable pub with_address :
    Outside → List Bytes → (Bytes → List Bytes → Run MenuTurn) → Run MenuTurn
with_address outside lines next = elim (get_valid_address_from_user outside.parsers lines) [
  | none ↦ ok prompts
  | some (address, rest) ↦ next address rest
]

unfoldable pub find_route_auto : Outside → Lnd → Node → Bytes → List Bytes → Run MenuTurn
find_route_auto outside ln_client node address lines = do
  (route, node') ← fatal_on_error (
      get_route_auto outside.aes outside.network.dials ln_client outside.token address
        outside.incoming node)
  ok (next_round node' lines)

unfoldable pub find_route_manual : Outside → Lnd → Node → Bytes → List Bytes → Run MenuTurn
find_route_manual outside ln_client node address lines = do
  let (ip_address, rest) = read_line lines
  (route, node') ← fatal_on_error (
      get_route_manual outside.aes outside.network.dials ln_client outside.token address ip_address
        outside.incoming node)
  ok (next_round node' rest)

-- The error of ConnectToPeer is not looked at.
unfoldable pub connect_by_hand : Outside → Lnd → Node → List Bytes → Run MenuTurn
connect_by_hand outside ln_client node lines = do
  let (address, rest) = read_line lines
  connected ← connect_to_peer outside.rsa outside.network ln_client address node
  ok (next_round (or_unchanged node connected) rest)

unfoldable pub find_pub_key : Node → Bytes → List Bytes → Run MenuTurn
find_pub_key node address lines = do
  registered ← is_address_registered node.db address
  if registered
      then (do pub_key ← get_address_node node.db address; ok (next_round node lines))
      else ok (next_round node lines)

-- The switch on the number of the option; a number without an option is passed over.
unfoldable pub menu_option : Outside → Lnd → Node → List Bytes → ℤ → Run MenuTurn
unfolding save_and_exit with_address find_route_auto find_route_manual connect_by_hand find_pub_key
menu_option outside ln_client node lines (negsuc n) = ok (next_round node lines)
menu_option outside ln_client node lines (pos n) =
    if n == 1
    then with_address outside lines (find_route_auto outside ln_client node)
    else if n == 2
    then with_address outside lines (find_route_manual outside ln_client node)
    else if n == 3
    then connect_by_hand outside ln_client node lines
    else if n == 6
    then with_address outside lines (find_pub_key node)
    else if n == 0
    then ok (save_and_exit node)
    else ok (next_round node lines)

-- One round of the loop of optionMenu: a text that is not a number ends the process.
unfoldable pub option_menu_round : Outside → Lnd → Node → List Bytes → Run MenuTurn
unfolding menu_option
option_menu_round outside ln_client node lines = do
  let (menu_option_string, rest) = read_line lines
  option ← or_fatal (outside.parsers.atoi menu_option_string)
  menu_option outside ln_client node rest option

-- unlockWalletMenu, which main does not call: the lines up to the passphrase that opens the wallet.
unfoldable pub unlock_wallet_menu : Wallet → List Bytes → Option (List Bytes)
unlock_wallet_menu wallet [] = if unlock_wallet wallet [] then some [] else none
unlock_wallet_menu wallet (passphrase ∷ lines) =
    let rest = unlock_wallet_menu wallet lines in
    if unlock_wallet wallet passphrase then some lines else rest
