-- ===== src/Db/Valid/Created.antt =====
-- createDB of ldrlib/db.go makes a database of which the invariant holds.
use ld_routing.Base.{◌≡◌, refl, true, false, some, [], ◌∷◌, length, arith}
use ld_routing.Base.Bytes.{Bytes}
use ld_routing.Base.Dict.{find}
use ld_routing.Wire.Bits.{Bits}
use ld_routing.Wire.Types.{AddressInfo}
use ld_routing.Tree.{create_binary_tree}
use ld_routing.Tree.Laws.{lookup}
use ld_routing.Db.{create_db}
use ld_routing.Db.Valid.{IsValid}

bare :
    (bits : Bits) (i : AddressInfo)
    → length bits ≡ 32
    → ¬ (lookup bits (create_binary_tree {A = AddressInfo}) ≡ some i)
unfolding lookup
bare [] i n e = omega arith
bare (true ∷ bits) i n e = cc
bare (false ∷ bits) i n e = cc

-- A new database is valid.
pub create_db-IsValid :
    (address_file routing_file : Bytes) → IsValid (create_db address_file routing_file)
unfolding create_db find
create_db-IsValid address_file routing_file = record {
  root = (refl, tt, tt);
  in_place = λ bits i n e. absurd (bare bits i n e);
  keyed = λ key bits e. cc e;
  pointed = λ bits i r n e p. absurd (bare bits i n e);
  stacked = λ r m. absurd m;
  distinct = tt;
}
