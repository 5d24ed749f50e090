-- ===== src/Db/Disk/Reload.antt =====
-- SaveRoutingDBToFile of ldrlib/db.go and the next start of the program.
use ld_routing.Base.{
  ℕ, zero, suc, ◌+◌, ◌*◌, ◌≤◌, ◌≡◌, refl, sym, ◌∙◌, ap, List, [], ◌∷◌, ◌++◌, length, drop,
  replicate, All, arith, fun_ext, length-append, append-nil, take-append-length, drop-append-length,
}
use ld_routing.Base.Int.{to_uint64}
use ld_routing.Base.Run.{◌>>=◌, for_each}
use ld_routing.Base.Bytes.{Bytes, put_le, length-put_le}
use ld_routing.Wire.Types.{Ref, RoutingEntry, IsRoutingEntry}
use ld_routing.Wire.Codec.{serialize_routing_entry}
use ld_routing.Wire.Codec.RoundTrip.{deserialize_routing_entry-serialize_routing_entry}
use ld_routing.Stack
use ld_routing.Db.{Db, genesis_block}
use ld_routing.Db.Routing.{add_new_entry}
use ld_routing.Db.Disk.{
  serialize_entries, save_routing_db_to_file, read_into, read_records, load_routing_entry,
  read_routing_file, routing_entry_serialized_size,
}

length-serialize_routing_entry :
    (e : RoutingEntry) → IsRoutingEntry e → length (serialize_routing_entry e) ≡ 24
unfolding serialize_routing_entry
length-serialize_routing_entry e v =
    let c = put_le 8 (to_uint64 e.capacity) in
    let h = put_le 8 e.height in
    omega (
      arith,
      length-append e.destination (e.next_hop ++ (c ++ h)),
      length-append e.next_hop (c ++ h),
      length-append c h,
      v.destination.len,
      v.next_hop.len,
      length-put_le 8 (to_uint64 e.capacity),
      length-put_le 8 e.height,
    )

drop_all : (n : ℕ) (bs : Bytes) → length bs ≡ n → drop n bs ≡ []
drop_all n bs h = ap (drop n) (sym (append-nil bs)) ∙ drop-append-length bs [] n h

-- A Read of the size of the buffer replaces all of it.
read_into-append :
    (buffer front rest : Bytes)
    → length front ≡ length buffer
    → read_into buffer (front ++ rest) ≡ front
read_into-append buffer front rest h =
    rw (take-append-length front rest (length buffer) h, drop_all (length front) buffer (sym h))
      (append-nil front)

-- One round of the loop of Reads.
read_records-step :
    (fuel k : ℕ) (buffer bs : Bytes)
    → length bs ≡ suc k
    → read_records (suc fuel) buffer bs
      ≡ read_into buffer bs ∷ read_records fuel (read_into buffer bs) (drop (length buffer) bs)
unfolding read_records
read_records-step fuel k buffer [] h = absurd (omega (arith, h))
read_records-step fuel k buffer (b ∷ bs) h = refl

read_records-nil : (fuel : ℕ) (buffer : Bytes) → read_records fuel buffer [] ≡ []
unfolding read_records
read_records-nil zero buffer = refl
read_records-nil (suc fuel) buffer = refl

-- A round over a record of the buffer's size.
read_records-append :
    (fuel k : ℕ) (buffer front rest : Bytes)
    → length buffer ≡ suc k
    → length front ≡ suc k
    → read_records (suc fuel) buffer (front ++ rest) ≡ front ∷ read_records fuel front rest
read_records-append fuel k buffer front rest size len =
    let same = len ∙ sym size in
    read_records-step fuel (k + length rest) buffer (front ++ rest)
      (omega (arith, len, length-append front rest))
    ∙ (ap (λ filled. filled ∷ read_records fuel filled (drop (length buffer) (front ++ rest)))
          (read_into-append buffer front rest same)
        ∙ ap (λ left. front ∷ read_records fuel front left)
            (drop-append-length front rest (length buffer) same))

-- The entries that references stand for.
abbrev pub entries_of : (Ref → RoutingEntry) → List Ref → List RoutingEntry
entries_of cells [] = []
entries_of cells (r ∷ rs) = cells r ∷ entries_of cells rs

-- The loop over the file, entry by entry.
load_entries :
    (cells : Ref → RoutingEntry) (rs : List Ref) (fuel : ℕ) (buffer : Bytes) (db : Db)
    → All (λ r. IsRoutingEntry (cells r)) rs
    → length buffer ≡ 24
    → length (serialize_entries cells rs) ≤ fuel
    → for_each load_routing_entry db (read_records fuel buffer (serialize_entries cells rs))
      ≡ for_each add_new_entry db (entries_of cells rs)
unfolding for_each serialize_entries load_routing_entry
load_entries cells [] fuel buffer db v size few =
    ap (for_each load_routing_entry db) (read_records-nil fuel buffer)
load_entries cells (r ∷ rs) zero buffer db v size few = absurd (
    omega (
      arith,
      few,
      length-append (serialize_routing_entry (cells r)) (serialize_entries cells rs),
      length-serialize_routing_entry (cells r) v.0,
    ))
load_entries cells (r ∷ rs) (suc fuel) buffer db v size few =
    let bytes = serialize_routing_entry (cells r) in
    let rest = serialize_entries cells rs in
    let len = length-serialize_routing_entry (cells r) v.0 in
    let total = length-append bytes rest in
    let later =
      λ (db' : Db). load_entries cells rs fuel bytes db' v.1 len (omega (arith, few, total, len)) in
    rw
      (
        read_records-append fuel 23 buffer bytes rest size len,
        deserialize_routing_entry-serialize_routing_entry (cells r) v.0,
      )
      (ap (λ f. add_new_entry db (cells r) >>= f) (fun_ext (λ db'. later db')))

length-serialize_entries :
    (cells : Ref → RoutingEntry) (rs : List Ref)
    → All (λ r. IsRoutingEntry (cells r)) rs
    → length (serialize_entries cells rs) ≡ 24 * length rs
unfolding serialize_entries
length-serialize_entries cells [] v = refl
length-serialize_entries cells (r ∷ rs) v = omega (
  arith,
  length-append (serialize_routing_entry (cells r)) (serialize_entries cells rs),
  length-serialize_routing_entry (cells r) v.0,
  length-serialize_entries cells rs v.1,
)

drop_long : (n : ℕ) (bs : Bytes) → length bs ≤ n → drop n bs ≡ []
drop_long zero [] h = refl
drop_long zero (b ∷ bs) h = absurd (omega (arith, h))
drop_long (suc n) [] h = refl
drop_long (suc n) (b ∷ bs) h = drop_long n bs (omega (arith, h))

-- What SaveRoutingDBToFile wrote of a database is read, at a start with that file, as the entries of
-- the stack from its top, each added as a new entry in that order: where the fields of the entries
-- are in the range of their Go types, and the old file was not longer than what is written.
pub read_routing_file-save_routing_db_to_file :
    (db started : Db)
    → started.routing_file ≡ (save_routing_db_to_file db).routing_file
    → All
        (λ r. IsRoutingEntry (db.cells r))
        (Stack.peek_from_block db.cells genesis_block db.routing_entries_stack)
    → length db.routing_file
      ≤ 24 * length (Stack.peek_from_block db.cells genesis_block db.routing_entries_stack)
    → read_routing_file started
      ≡ for_each add_new_entry started (
          entries_of db.cells
            (Stack.peek_from_block db.cells genesis_block db.routing_entries_stack))
unfolding read_routing_file save_routing_db_to_file
read_routing_file-save_routing_db_to_file db started same v fits =
    let rs = Stack.peek_from_block db.cells genesis_block db.routing_entries_stack in
    let new = serialize_entries db.cells rs in
    let short =
      drop_long (length new) db.routing_file
        (omega (arith, fits, length-serialize_entries db.cells rs v)) in
    let whole = same ∙ (ap (λ rest. new ++ rest) short ∙ append-nil new) in
    ap
      (λ file.
        for_each load_routing_entry started
          (read_records (length file) (replicate routing_entry_serialized_size 0) file))
      whole
    ∙ load_entries db.cells rs (length new) (replicate routing_entry_serialized_size 0) started v
        refl (omega (arith))
