-- ===== src/Route/Hops.antt =====
-- addHopToRoute of ldrlib/routing.go: what a hop adds to a route, and the capacity that is left.
use ld_routing.Base.{
  ◌+◌, ◌<◌, ◌≡◌, refl, sym, ◌∙◌, ap, subst, true, false, ◌&&◌, ◌||◌, some, List, [], ◌∷◌, ◌++◌,
  ◌==◌, if◌then◌else◌, length, All, inl, inr, Bool-cases, Option-cases, length-append, append_assoc,
  append-nil, arith,
}
use ld_routing.Base.Int.{ℤ, pos, negsuc, ltb_ℤ}
use ld_routing.Base.Run.{ok, >>=-eq-ok}
use ld_routing.Base.Bytes.{Bytes, bytes_eq}
use ld_routing.Wire.Types.{Ref, Route}
use ld_routing.Wire.Hex.{pub_key_array_to_string}
use ld_routing.Db.{Db}
use ld_routing.Db.Addresses.{get_address_node}
use ld_routing.Db.Lnd.{Lnd, Channel, get_local_channels}
use ld_routing.Db.Routing.{get_routing_entry}
use ld_routing.Route.{hop_capacity, add_hop_to_route}

-- `a ≤ b` of two int64
abbrev pub Le : ℤ → ℤ → Type 0
Le a b = ltb_ℤ b a ≡ false

ok-injective : {A : Type 0} {a b : A} → ok a ≡ ok b → a ≡ b
ok-injective h = cc

le_refl : (a : ℤ) → Le a a
le_refl (pos a) = ground arith
le_refl (negsuc a) = ground arith

pub le_trans : (a b c : ℤ) → Le a b → Le b c → Le a c
le_trans (pos a) (pos b) (pos c) p q = ground (arith, p, q)
le_trans (pos a) (pos b) (negsuc c) p q = cc
le_trans (pos a) (negsuc b) c p q = cc
le_trans (negsuc a) (pos b) (pos c) p q = refl
le_trans (negsuc a) (pos b) (negsuc c) p q = cc
le_trans (negsuc a) (negsuc b) (pos c) p q = refl
le_trans (negsuc a) (negsuc b) (negsuc c) p q = ground (arith, p, q)

lt→le : (a b : ℤ) → ltb_ℤ a b ≡ true → Le a b
lt→le (pos a) (pos b) h = ground (arith, h)
lt→le (pos a) (negsuc b) h = cc
lt→le (negsuc a) (pos b) h = refl
lt→le (negsuc a) (negsuc b) h = ground (arith, h)

-- The channels that lead to a hop have at least a balance.
abbrev pub Covers : Bytes → ℤ → List Channel → Type 0
Covers hop capacity channels =
    All (λ c. bytes_eq c.remote_pubkey hop ≡ true → Le capacity c.local_balance) channels

-- The capacity after one channel, behind the first hop.
narrowed : Bytes → Channel → ℤ → ℤ
narrowed hop c capacity =
    if bytes_eq c.remote_pubkey hop && (false || ltb_ℤ c.local_balance capacity)
    then c.local_balance
    else capacity

narrowed-Le :
    (hop : Bytes) (c : Channel) (capacity : ℤ)
    → Le (narrowed hop c capacity) capacity
      × (bytes_eq c.remote_pubkey hop ≡ true → Le (narrowed hop c capacity) c.local_balance)
unfolding narrowed
narrowed-Le hop c capacity = elim (Bool-cases (bytes_eq c.remote_pubkey hop)) [
  | inl same ↦ elim (Bool-cases (ltb_ℤ c.local_balance capacity)) [
    | inl less ↦ rw (same, less) (lt→le c.local_balance capacity less, λ _. le_refl c.local_balance)
    | inr more ↦ rw (same, more) (le_refl capacity, λ _. more)
  ]
  | inr other ↦ rw other (le_refl capacity, λ e. absurd cc)
]

-- Behind the first hop, the capacity falls to the balance of every channel with the hop.
hop_capacity-Le :
    (hop : Bytes) (channels : List Channel) (capacity : ℤ)
    → Le (hop_capacity false hop channels capacity) capacity
      × Covers hop (hop_capacity false hop channels capacity) channels
unfolding hop_capacity narrowed
hop_capacity-Le hop [] capacity = (le_refl capacity, tt)
hop_capacity-Le hop (c ∷ channels) capacity =
    let next = narrowed hop c capacity in
    let end = hop_capacity false hop channels next in
    let (p, q) = hop_capacity-Le hop channels next in
    let (one, two) = narrowed-Le hop c capacity in
    (
      le_trans end next capacity p one,
      ((λ same. le_trans end next c.local_balance p (two same)), q),
    )

-- A route with more hops: the destination and the token stay, and so does an upper bound of the
-- capacity once there is a hop.
pub record IsExtension (before after : Route) (added : List Bytes) : Type 0 where
  pub destination : after.destination ≡ before.destination
  pub token : after.token ≡ before.token
  pub hops : after.hops ≡ before.hops ++ added
  pub capacity : 0 < length before.hops → Le after.capacity before.capacity

-- What addHopToRoute has done when it returns a hop.
pub record IsHopAdded (ln : Lnd) (db : Db) (before after : Route) (next : Bytes) : Type 0 where
  pub entry :
      (r : Ref) × (get_routing_entry db before.destination ≡ ok (some r))
      × (next ≡ (db.cells r).next_hop)
  pub extension : IsExtension before after (next ∷ [])
  pub covered :
      (key : Bytes) × (channels : List Channel) × (get_address_node db next ≡ ok key)
      × (get_local_channels ln ≡ ok channels)
      × (0 < length before.hops → Covers (pub_key_array_to_string key) after.capacity channels)

made :
    (ln : Lnd) (db : Db) (before : Route) (r : Ref) (key : Bytes) (channels : List Channel)
    → get_routing_entry db before.destination ≡ ok (some r)
    → get_address_node db (db.cells r).next_hop ≡ ok key
    → get_local_channels ln ≡ ok channels
    → IsHopAdded ln db before
        (record before {
          capacity =
              hop_capacity
                (length before.hops == 0)
                (pub_key_array_to_string key)
                channels
                before.capacity;
          hops = before.hops ++ ((db.cells r).next_hop ∷ []);
        })
        (db.cells r).next_hop
made ln db before r key channels e1 e2 e3 =
    let hop = pub_key_array_to_string key in
    let later : 0 < length before.hops → (length before.hops == 0) ≡ false = λ p. ground arith in
    let (p, q) = hop_capacity-Le hop channels before.capacity in
    record {
      entry = (r, e1, refl);
      extension = record {
        destination = refl;
        token = refl;
        hops = refl;
        capacity = λ some_hop. rw (later some_hop) p;
      };
      covered = (key, channels, e2, e3, λ some_hop. rw (later some_hop) q);
    }

-- A hop that addHopToRoute returns is the next hop of the routing entry of the destination, and
-- stands behind the hops of the route. If the route had hops, the capacity is not raised, and is at
-- most the balance of every channel with the hop.
pub add_hop_to_route-IsHopAdded :
    (ln : Lnd) (db : Db) (before after : Route) (next : Bytes)
    → add_hop_to_route ln db before ≡ ok (next, after)
    → IsHopAdded ln db before after next
unfolding add_hop_to_route
add_hop_to_route-IsHopAdded ln db before after next e =
    let (found, e1, e2) = >>=-eq-ok (get_routing_entry db before.destination) _ e in
    elim (Option-cases found) [
      | inl e_none ↦ absurd (cc (rw e_none at e2))
      | inr (r, e_some) ↦
          let e2' = rw e_some at e2 in
          let (key, e3, e4) = >>=-eq-ok (get_address_node db (db.cells r).next_hop) _ e2' in
          let (channels, e5, e6) = >>=-eq-ok (get_local_channels ln) _ e4 in
          subst (λ (p : Bytes × Route). IsHopAdded ln db before p.1 p.0) (ok-injective e6)
            (made ln db before r key channels (e1 ∙ ap ok e_some) e3 e5)
    ]

pub unchanged-IsExtension : (r : Route) → IsExtension r r []
unchanged-IsExtension r = record {
  destination = refl;
  token = refl;
  hops = sym (append-nil r.hops);
  capacity = λ _. le_refl r.capacity;
}

pub then-IsExtension :
    (a b c : Route) (xs ys : List Bytes)
    → IsExtension a b xs
    → IsExtension b c ys
    → IsExtension a c (xs ++ ys)
then-IsExtension a b c xs ys first second =
    let size : length b.hops ≡ length a.hops + length xs =
      ap length first.hops ∙ length-append a.hops xs in
    record {
      destination = second.destination ∙ first.destination;
      token = second.token ∙ first.token;
      hops = second.hops ∙ ap (λ hs. hs ++ ys) first.hops ∙ append_assoc a.hops xs ys;
      capacity = λ some_hop.
          le_trans c.capacity b.capacity a.capacity
            (second.capacity (omega (arith, size, some_hop))) (first.capacity some_hop);
    }
