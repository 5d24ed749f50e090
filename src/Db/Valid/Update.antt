-- ===== src/Db/Valid/Update.antt =====
-- addRoutingEntryToDB keeps the invariant, and replaces the entry of its destination.
use ld_routing.Base.{◌<◌, ◌≡◌, ◌≢◌, refl, sym, ◌∙◌, subst, ap, inl, inr, Option, none, some, length}
use ld_routing.Base.Run.{ok}
use ld_routing.Wire.Bits.{Bits}
use ld_routing.Wire.Types.{Ref, AddressInfo}
use ld_routing.Tree.{modify}
use ld_routing.Tree.Laws.{lookup, lookup-modify_self, lookup-modify_ne}
use ld_routing.Tree.Shape.{modify-IsRoot}
use ld_routing.Stack.{RoutingStack, put}
use ld_routing.Stack.Laws.{Member, Distinct, remove-Without}
use ld_routing.Db.{Db}
use ld_routing.Db.Routing.{drop_current}
use ld_routing.Db.Valid.{IsValid, entry_path, Holds}

-- The stack without the entry that is replaced, if there is one.
pub record Dropped (o : Option Ref) (before after : RoutingStack) : Type 0 where
  pub kept : (r : Ref) → Member r before → o ≢ some r → Member r after
  pub left : (r : Ref) → Member r after → Member r before × (o ≢ some r)
  pub distinct : Distinct after

pub some-injective : {A : Type 0} {a b : A} → some a ≡ some b → a ≡ b
some-injective h = cc

pub drop_current-Dropped :
    (o : Option Ref) (s : RoutingStack)
    → Distinct s
    → ((r : Ref) → o ≡ some r → Member r s)
    → (rest : RoutingStack) × (drop_current o s ≡ ok rest) × Dropped o s rest
unfolding drop_current
drop_current-Dropped none s d m =
    (s, refl, record { kept = λ r k n. k; left = λ r k. (k, λ e. cc e); distinct = d })
drop_current-Dropped (some c) s d m =
    let (rest, e, w) = remove-Without c s d (m c refl) in
    (
      rest,
      e,
      record {
        kept = λ r k n. w.kept r k (λ p. n (ap some (sym p)));
        left = λ r k. ((w.left r k).0, λ p. (w.left r k).1 (sym (some-injective p)));
        distinct = w.distinct;
      },
    )

pub Bits-discrete : Discrete Bits
Bits-discrete = hlevel

-- The database after the entry `r` took its place.
abbrev pub replaced : Db → Ref → RoutingStack → Db
replaced db r rest = record db {
  address_tree_head =
      modify (entry_path db r) (λ i. record i { routing_entry = some r }) db.address_tree_head;
  routing_entries_stack = put r rest;
}

module _ (db : Db) (v : IsValid db) (r : Ref) (fresh : ¬ Member r db.routing_entries_stack)
    (allocated : r < db.next) (size : length (entry_path db r) ≡ 32) (i : AddressInfo)
    (registered : lookup (entry_path db r) db.address_tree_head ≡ some i) where
  -- What stands at the destination's path afterwards, and at another path.
  pub lookup_there :
      (rest : RoutingStack)
      → lookup (entry_path db r) (replaced db r rest).address_tree_head
        ≡ some (record i { routing_entry = some r })
  lookup_there rest =
      lookup-modify_self (entry_path db r)
        (λ (j : AddressInfo). record j { routing_entry = some r }) db.address_tree_head
      ∙ rw registered

  pub lookup_elsewhere :
      (rest : RoutingStack) (bits : Bits)
      → length bits ≡ 32
      → bits ≢ entry_path db r
      → lookup bits (replaced db r rest).address_tree_head ≡ lookup bits db.address_tree_head
  lookup_elsewhere rest bits n ne =
      lookup-modify_ne (entry_path db r) bits
        (λ (j : AddressInfo). record j { routing_entry = some r }) db.address_tree_head
        (n ∙ sym size) ne

  -- The info at a path afterwards is the one that stood there, but for the entry at the destination.
  data Origin (bits : Bits) (j : AddressInfo) : Type 0 where
    here : bits ≡ entry_path db r → j ≡ record i { routing_entry = some r } → Origin bits j
    elsewhere : bits ≢ entry_path db r → lookup bits db.address_tree_head ≡ some j → Origin bits j

  origin :
      (rest : RoutingStack) (bits : Bits) (j : AddressInfo)
      → length bits ≡ 32
      → lookup bits (replaced db r rest).address_tree_head ≡ some j
      → Origin bits j
  origin rest bits j n e = elim (Bits-discrete bits (entry_path db r)) [
    | yes p ↦ here p (
        sym (
          some-injective (
            sym (lookup_there rest)
            ∙ subst (λ b. lookup b (replaced db r rest).address_tree_head ≡ some j) p e)))
    | no ne ↦ elsewhere ne (sym (lookup_elsewhere rest bits n ne) ∙ e)
  ]

  pub replaced-IsValid :
      (rest : RoutingStack)
      → Dropped i.routing_entry db.routing_entries_stack rest
      → IsValid (replaced db r rest)
  unfolding put
  replaced-IsValid rest d = record {
    root = modify-IsRoot 32 (entry_path db r) _ db.address_tree_head v.root;
    in_place = λ bits j n e. elim (origin rest bits j n e) [
      | here p q ↦ rw q (v.in_place (entry_path db r) i size registered ∙ sym p)
      | elsewhere ne q ↦ v.in_place bits j n q
    ];
    keyed = λ key bits e.
        let (n, (j, old, k)) = v.keyed key bits e in
        elim (Bits-discrete bits (entry_path db r)) [
          | yes p ↦
              let same : j ≡ i = some-injective (
                sym old ∙ subst (λ b. lookup b db.address_tree_head ≡ some i) (sym p) registered) in
              (
                n,
                (
                  record i { routing_entry = some r },
                  subst
                      (λ b.
                        lookup b (replaced db r rest).address_tree_head
                        ≡ some (record i { routing_entry = some r }))
                      (sym p) (lookup_there rest),
                  ap (λ (x : AddressInfo). x.node_pub_key) (sym same) ∙ k,
                ),
              )
          | no ne ↦ (n, (j, lookup_elsewhere rest bits n ne ∙ old, k))
        ];
    pointed = λ bits j q n e p. elim (origin rest bits j n e) [
      | here same eq ↦
          let e : q ≡ r = some-injective (sym p ∙ ap (λ (x : AddressInfo). x.routing_entry) eq) in
          (inl e, ap (entry_path db) e ∙ sym same)
      | elsewhere ne old ↦
          let (m, at) = v.pointed bits j q n old p in
          (
            inr (
                d.kept q m
                  (λ c. ne (sym at ∙ (v.pointed (entry_path db r) i q size registered c).1))),
            at,
          )
    ];
    stacked = λ q m. elim m [
      | inl same ↦
          subst
            (λ x. (x < db.next) × (length (entry_path db x) ≡ 32) × Holds (replaced db r rest) x)
            (sym same)
            (allocated, size, (record i { routing_entry = some r }, lookup_there rest, refl))
      | inr k ↦
          let (old, ne) = d.left q k in
          let (h, n, (j, e, p)) = v.stacked q old in
          let apart : entry_path db q ≢ entry_path db r = λ c.
            let same : j ≡ i =
              some-injective
                (sym e ∙ subst (λ b. lookup b db.address_tree_head ≡ some i) (sym c) registered) in
            ne (ap (λ (x : AddressInfo). x.routing_entry) (sym same) ∙ p) in
          (h, n, (j, lookup_elsewhere rest (entry_path db q) n apart ∙ e, p))
    ];
    distinct = (λ m. fresh (d.left r m).0, d.distinct);
  }
