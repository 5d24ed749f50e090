-- ===== src/Examples/Databases.antt =====
-- The database of ldrlib/db.go and the stack of ldrlib/routingStack.go at concrete values.
use ld_routing.Base.{◌≡◌, refl, inl, inr, none, [], ◌∷◌, arith, replicate, ◌==◌, if◌then◌else◌}
use ld_routing.Base.Int.{pos}
use ld_routing.Base.Run.{ok, for_each}
use ld_routing.Base.Bytes.{IsBytes, bytes_eq}
use ld_routing.Wire.Bits.{byte_to_bit}
use ld_routing.Wire.Types.{Ref, AddressInfo, RoutingEntry}
use ld_routing.Tree.{is_registered, child, insert}
use ld_routing.Tree.Laws.{lookup}
use ld_routing.Stack.{RoutingStack, peek_from_block, remove}
use ld_routing.Stack.Laws.{recent, Without, peek_from_block-recent, remove-Without}
use ld_routing.Db.{Db, create_db}
use ld_routing.Db.Addresses.{add_address_to_db, is_address_registered}
use ld_routing.Db.Routing.{add_new_entry, lower_capacities}
use ld_routing.Db.Routing.Capacities.{lowered_cells, lower_capacities-lowered_cells}
use ld_routing.Db.Disk.{save_routing_db_to_file, read_routing_file}
use ld_routing.Db.Disk.Reload.{read_routing_file-save_routing_db_to_file}
use ld_routing.Db.Valid.{IsValid}
use ld_routing.Db.Valid.Created.{create_db-IsValid}
use ld_routing.Db.Valid.Address.{Registered, add_address_to_db-Registered}
use ld_routing.Db.Valid.Added.{AddedNew, add_new_entry-AddedNew}

abbrev new_db : Db
new_db = create_db [] []

abbrev info_ : AddressInfo
info_ = record {
  address = 10 ∷ 0 ∷ 255 ∷ 1 ∷ [];
  node_pub_key = replicate 33 2;
  registration_height = 600000;
  registration_tx_id = replicate 32 7;
  version = 0;
  routing_entry = none;
  peer_conn = none;
}

add_address_to_db-Registered_example : Registered info_ new_db (add_address_to_db new_db info_)
unfolding is_address_registered create_db is_registered child byte_to_bit
add_address_to_db-Registered_example =
    add_address_to_db-Registered new_db info_ (create_db-IsValid [] []) refl refl refl

one_address-IsValid : IsValid (add_address_to_db new_db info_)
unfolding is_address_registered create_db is_registered child byte_to_bit
one_address-IsValid =
    (add_address_to_db-Registered new_db info_ (create_db-IsValid [] []) refl refl refl).valid

abbrev entry_ : RoutingEntry
entry_ = record {
  destination = 10 ∷ 0 ∷ 255 ∷ 1 ∷ [];
  next_hop = replicate 4 1;
  capacity = pos 1000;
  height = 600001;
}

add_new_entry-AddedNew_example :
    (db' : Db) × (add_new_entry (add_address_to_db new_db info_) entry_ ≡ ok db')
    × AddedNew entry_ (add_address_to_db new_db info_) db'
unfolding add_address_to_db create_db lookup insert byte_to_bit
add_new_entry-AddedNew_example =
    add_new_entry-AddedNew (add_address_to_db new_db info_) entry_ info_ one_address-IsValid refl
      refl

-- The entries of a stack: entry `r` is of block `r`.
abbrev by_height : Ref → RoutingEntry
by_height r = record { destination = []; next_hop = []; capacity = pos 0; height = r }

abbrev stack_ : RoutingStack
stack_ = 9 ∷ 7 ∷ 7 ∷ 2 ∷ []

peek_from_block-recent_example : peek_from_block by_height 5 stack_ ≡ recent by_height 5 stack_
peek_from_block-recent_example = peek_from_block-recent by_height 5 stack_ (
  (omega arith, (omega arith, (omega arith, tt))),
  ((omega arith, (omega arith, tt)), ((omega arith, tt), (tt, tt))),
)

remove-Without_example :
    (after : RoutingStack) × (remove 7 (9 ∷ 7 ∷ 2 ∷ []) ≡ ok after)
    × Without 7 (9 ∷ 7 ∷ 2 ∷ []) after
remove-Without_example =
    remove-Without 7 (9 ∷ 7 ∷ 2 ∷ [])
      (
        (λ m. elim m [ inl e ↦ cc e | inr k ↦ elim k [ inl e ↦ cc e | inr z ↦ z ] ]),
        ((λ m. elim m [ inl e ↦ cc e | inr z ↦ z ]), ((λ z. z), tt)),
      )
      (inr (inl refl))

abbrev other_entry : RoutingEntry
other_entry = record entry_ { next_hop = replicate 4 2; height = 600000 }

-- A database with two entries, the later one on top.
abbrev running : Db
running = record new_db {
  cells = λ r. if r == 1 then entry_ else other_entry;
  routing_entries_stack = 1 ∷ 0 ∷ [];
}

-- The next start, once the address is read.
abbrev started : Db
started = record (add_address_to_db new_db info_) {
  routing_file = (save_routing_db_to_file running).routing_file;
}

destination-IsBytes : IsBytes 4 entry_.destination
destination-IsBytes = record { len = refl; each = ground arith }

read_routing_file-save_routing_db_to_file_example :
    read_routing_file started ≡ for_each add_new_entry started (entry_ ∷ other_entry ∷ [])
unfolding peek_from_block create_db
read_routing_file-save_routing_db_to_file_example =
    read_routing_file-save_routing_db_to_file running started refl
      (
        record {
          destination = destination-IsBytes;
          next_hop = record { len = refl; each = ground arith };
          capacity = omega arith;
          height = omega arith;
        },
        (
          record {
            destination = destination-IsBytes;
            next_hop = record { len = refl; each = ground arith };
            capacity = omega arith;
            height = omega arith;
          },
          tt,
        ),
      )
      (omega arith)

lower_capacities-lowered_cells_example :
    lower_capacities (replicate 4 1) (pos 500) running (1 ∷ 0 ∷ 1 ∷ []) ≡ record running {
      cells = lowered_cells (replicate 4 1) (pos 500) (1 ∷ 0 ∷ 1 ∷ []) running.cells;
    }
lower_capacities-lowered_cells_example =
    lower_capacities-lowered_cells (replicate 4 1) (pos 500) running (1 ∷ 0 ∷ 1 ∷ [])

lowered_once :
    ((lower_capacities (replicate 4 1) (pos 500) running (1 ∷ 0 ∷ 1 ∷ [])).cells 1).capacity
      ≡ pos 500
    × ((lower_capacities (replicate 4 1) (pos 500) running (1 ∷ 0 ∷ 1 ∷ [])).cells 0).capacity
      ≡ pos 1000
unfolding lower_capacities bytes_eq
lowered_once = (refl, refl)
