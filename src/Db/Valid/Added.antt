-- ===== src/Db/Valid/Added.antt =====
-- addRoutingEntryToDB and a new entry of ldrlib/db.go: what they leave in the database.
use ld_routing.Base.{◌<◌, ◌*◌, ◌≡◌, ◌≢◌, refl, sym, ◌∙◌, subst, ap, some, arith, length}
use ld_routing.Base.Run.{ok, ◌>>=◌, or_panic}
use ld_routing.Base.Bytes.{Bytes}
use ld_routing.Wire.Bits.{byte_to_bit, length-byte_to_bit}
use ld_routing.Wire.Types.{Ref, AddressInfo, RoutingEntry}
use ld_routing.Tree.Laws.{lookup}
use ld_routing.Stack.Laws.{Member}
use ld_routing.Db.{Db, allocate}
use ld_routing.Db.Routing.{get_routing_entry, add_routing_entry_to_db, add_new_entry}
use ld_routing.Db.Valid.{cells-allocate_self, allocate-IsValid, IsValid, entry_path, info_at-lookup}
use ld_routing.Db.Valid.Update.{
  drop_current-Dropped, replaced, replaced-IsValid, lookup_there, lookup_elsewhere,
}

-- What addRoutingEntryToDB did: the entry is the one of its destination, and the entries of the
-- other addresses are as before.
pub record Added (r : Ref) (before after : Db) : Type 0 where
  pub valid : IsValid after
  pub there : get_routing_entry after (before.cells r).destination ≡ ok (some r)
  pub others :
      (address : Bytes)
      → length address ≡ 4
      → byte_to_bit address ≢ entry_path before r
      → get_routing_entry after address ≡ get_routing_entry before address
  pub cells : after.cells ≡ before.cells

pub entry_at :
    (db : Db) (address : Bytes)
    → get_routing_entry db address ≡ (
        or_panic (lookup (byte_to_bit address) db.address_tree_head) >>= λ info.
        ok info.routing_entry)
unfolding get_routing_entry
entry_at db address = rw (info_at-lookup db (byte_to_bit address)) refl

module _ (db : Db) (v : IsValid db) (r : Ref) (fresh : ¬ Member r db.routing_entries_stack)
    (allocated : r < db.next) (size : length (entry_path db r) ≡ 32) (i : AddressInfo)
    (registered : lookup (entry_path db r) db.address_tree_head ≡ some i) where
  pub add_routing_entry_to_db-Added :
      (db' : Db) × (add_routing_entry_to_db db r ≡ ok db') × Added r db db'
  unfolding add_routing_entry_to_db
  add_routing_entry_to_db-Added =
      let (rest, e, d) =
        drop_current-Dropped i.routing_entry db.routing_entries_stack v.distinct
          (λ c p. (v.pointed (entry_path db r) i c size registered p).0) in
      (
        replaced db r rest,
        rw (info_at-lookup db (entry_path db r), registered, e) refl,
        record {
          valid = replaced-IsValid db v r fresh allocated size i registered rest d;
          there =
              entry_at (replaced db r rest) _
              ∙ rw (lookup_there db v r fresh allocated size i registered rest) refl;
          others = λ address n ne.
              let len : length (byte_to_bit address) ≡ 32 =
                length-byte_to_bit address ∙ ap (λ k. 8 * k) n in
              let same =
                lookup_elsewhere db v r fresh allocated size i registered rest (byte_to_bit address)
                  len ne in
              entry_at (replaced db r rest) address
              ∙ ap (λ o. or_panic o >>= λ (info : AddressInfo). ok info.routing_entry) same
              ∙ sym (entry_at db address);
          cells = refl;
        },
      )

-- What adding a new entry did: the new entry is the one of its destination, and the entries of the
-- other addresses are as before.
pub record AddedNew (entry : RoutingEntry) (before after : Db) : Type 0 where
  pub valid : IsValid after
  pub there : get_routing_entry after entry.destination ≡ ok (some before.next)
  pub contents : after.cells before.next ≡ entry
  pub others :
      (address : Bytes)
      → length address ≡ 4
      → byte_to_bit address ≢ byte_to_bit entry.destination
      → get_routing_entry after address ≡ get_routing_entry before address

-- In a valid database, adding a new entry for a registered address of four bytes succeeds: the database stays
-- valid, the new entry is the one of its destination, and the other addresses keep theirs.
pub add_new_entry-AddedNew :
    (db : Db) (entry : RoutingEntry) (i : AddressInfo)
    → IsValid db
    → length entry.destination ≡ 4
    → lookup (byte_to_bit entry.destination) db.address_tree_head ≡ some i
    → (db' : Db) × (add_new_entry db entry ≡ ok db') × AddedNew entry db db'
unfolding add_new_entry allocate
add_new_entry-AddedNew db entry i v n registered =
    let before = (allocate db entry).1 in
    let self : before.cells db.next ≡ entry = cells-allocate_self db entry in
    let path : entry_path before db.next ≡ byte_to_bit entry.destination =
      ap (λ (e : RoutingEntry). byte_to_bit e.destination) self in
    let (db', e, a) =
      add_routing_entry_to_db-Added before (allocate-IsValid db entry v) db.next
        (λ m. let h = (v.stacked db.next m).0 in absurd (omega arith)) (omega arith)
        (ap length path ∙ length-byte_to_bit entry.destination ∙ ap (λ k. 8 * k) n) i
        (subst (λ b. lookup b db.address_tree_head ≡ some i) (sym path) registered) in
    (
      db',
      e,
      record {
        valid = a.valid;
        there = ap (λ (x : RoutingEntry). get_routing_entry db' x.destination) (sym self) ∙ a.there;
        contents = ap (λ (f : Ref → RoutingEntry). f db.next) a.cells ∙ self;
        others = λ address len ne.
            a.others address len (λ p. ne (p ∙ path))
            ∙ entry_at before address
            ∙ sym (entry_at db address);
      },
    )
