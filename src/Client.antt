-- ===== src/Client.antt =====
-- client.go: the registration of the local address, and the start of the program. Each ReadString takes
-- one of the lines that the user enters; at their end it returns an empty text, with an error that is
-- not looked at.
pub mod Menu
pub mod Options
pub mod Choice
use ld_routing.Base.{
  ℕ, zero, suc, ◌-◌, Bool, true, false, ◌||◌, Option, none, some, List, [], ◌∷◌, ◌++◌, length,
  get_elem?, if◌then◌else◌,
}
use ld_routing.Base.Int.{ℤ, pos, negsuc, ltb_ℤ}
use ld_routing.Base.Run.{Run, ok, fatal, ◌>>=◌, fatal_on_error, or_fatal, or_panic}
use ld_routing.Base.Bytes.{Bytes}
use ld_routing.Bitcoin.{Bitcoind}
use ld_routing.Bitcoin.Broadcast.{Wallet, broadcast_new_address_tx}
use ld_routing.Db.{Db, zero_address, save_local_address}
use ld_routing.Db.Addresses.{get_node_address, suggest_address}
use ld_routing.Db.Disk.{read_db_from_disk}
use ld_routing.Db.Lnd.{Lnd, get_local_node_pub_key, get_local_node_neighbours_pub_keys}
use ld_routing.Db.Registration.{update_address_db}

-- strconv.Atoi, and net.ParseIP with To4: none is an error, or nil.
pub record Parsers : Type 0 where
  pub atoi : Bytes → Option ℤ
  pub parse_ip : Bytes → Option Bytes

-- One ReadString, and the lines that are left.
abbrev pub read_line : List Bytes → Bytes × List Bytes
read_line [] = ([], [])
read_line (line ∷ lines) = (line, lines)

unfoldable pub verify_local_address_registration : Lnd → Db → Run (Bytes × Bool)
verify_local_address_registration ln_client db = do
  local_node_pub_key ← get_local_node_pub_key ln_client
  (local_address, valid) ← get_node_address db local_node_pub_key
  ok (if valid then (local_address, true) else (zero_address, false))

-- getValidAddressFromUser: none is a loop that does not end, as every line was refused and so is the
-- empty text that each further ReadString returns.
unfoldable pub get_valid_address_from_user : Parsers → List Bytes → Option (Bytes × List Bytes)
get_valid_address_from_user parsers [] = elim (parsers.parse_ip []) [
  | none ↦ none
  | some address ↦ some (address, [])
]
get_valid_address_from_user parsers (line ∷ lines) =
    let rest = get_valid_address_from_user parsers lines in
    elim (parsers.parse_ip line) [ none ↦ rest | some address ↦ some (address, lines) ]

-- BroadcastNewAddressTx with `log.Fatal` on its error.
unfoldable pub register : Wallet → Lnd → Bytes → List Bytes → Run (Option (Bytes × List Bytes))
register wallet ln_client address lines = do
  hash ← fatal_on_error (broadcast_new_address_tx wallet ln_client address)
  ok (some (address, lines))

unfoldable pub register_address_menu :
    Parsers → Wallet → Lnd → List Bytes → Run (Option (Bytes × List Bytes))
register_address_menu parsers wallet ln_client lines =
    elim (get_valid_address_from_user parsers lines) [
      | none ↦ ok none
      | some (address, rest) ↦ register wallet ln_client address rest
    ]

pub record AddressOption : Type 0 where
  pub suggested : Bytes
  pub neighbour : Bytes

-- The option that a neighbour gives.
unfoldable pub option_of : Db → Bytes → Run (List AddressOption)
option_of db neighbour_pub_key = do
  (neighbour_address, is_registered) ← get_node_address db neighbour_pub_key
  if is_registered
      then (do
        suggested_address ← fatal_on_error (suggest_address db neighbour_address)
        ok (record { suggested = suggested_address; neighbour = neighbour_address } ∷ []))
      else ok []

-- The loop over the neighbours.
unfoldable pub address_options : Db → List Bytes → Run (List AddressOption)
unfolding option_of
address_options db [] = ok []
address_options db (neighbour ∷ neighbours) = do
  first ← option_of db neighbour
  rest ← address_options db neighbours
  ok (first ++ rest)

-- What the user's number leads to: -1 is an address of the user's own.
unfoldable pub choose_option :
    Parsers → Wallet → Lnd → List AddressOption → List Bytes → ℤ → Run (Option (Bytes × List Bytes))
choose_option parsers wallet ln_client options lines choice =
    if ltb_ℤ choice (negsuc 0) || ltb_ℤ (pos (length options - 1)) choice
    then fatal
    else elim choice [
      | negsuc n ↦ register_address_menu parsers wallet ln_client lines
      | pos n ↦ or_panic (get_elem? options n) >>= λ option.
          register wallet ln_client option.suggested lines
    ]

-- The menu of a list of options.
unfoldable pub address_menu :
    Parsers → Wallet → Lnd → List AddressOption → List Bytes → Run (Option (Bytes × List Bytes))
unfolding choose_option
address_menu parsers wallet ln_client [] lines =
    register_address_menu parsers wallet ln_client lines
address_menu parsers wallet ln_client (option ∷ options) lines = do
  let (text, rest) = read_line lines
  choice ← or_fatal (parsers.atoi text)
  choose_option parsers wallet ln_client (option ∷ options) rest choice

unfoldable pub address_registration_menu :
    Parsers → Wallet → Lnd → Db → List Bytes → Run (Option (Bytes × List Bytes))
unfolding address_menu
address_registration_menu parsers wallet ln_client db lines = do
  neighbours ← get_local_node_neighbours_pub_keys ln_client
  options ← address_options db neighbours
  address_menu parsers wallet ln_client options lines

-- main up to SaveLocalAddress, over the two files that are there.
unfoldable pub start_database :
    Parsers → Wallet → Bitcoind → Lnd → Bytes → Bytes → List Bytes → Run (Option (Db × List Bytes))
start_database parsers wallet bitcoind ln_client address_file routing_file lines = do
  read_db ← read_db_from_disk address_file routing_file
  db ← update_address_db read_db bitcoind ln_client
  (local_address, valid) ← verify_local_address_registration ln_client db
  chosen ←
      if valid
      then ok (some (local_address, lines))
      else address_registration_menu parsers wallet ln_client db lines
  elim chosen [
    | none ↦ ok none
    | some (address, rest) ↦ ok (some (save_local_address db address, rest))
  ]
