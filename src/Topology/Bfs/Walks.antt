-- ===== src/Topology/Bfs/Walks.antt =====
-- Walks over an adjacency map, and what the map of `EnabledAdj` holds.
use mathlib.Core.List.{Memᴰ}
use mathlib.Core.List.Memᴰ
use sd_wan_plus.Base.{
  ℕ, suc, ◌+◌, ◌≤◌, ◌*◌, String, ◌≡◌, refl, sym, ap, ◌∙◌, ◌⊎◌, inl, inr, ◌↔◌, true, Bool-cases,
  List, [], ◌∷◌, ◌++◌, map, Member, length, length-append, arith, ==-cases,
}
use sd_wan_plus.Core.Types.{WireGuardLink}
use sd_wan_plus.Topology.Links.{Linked}
use sd_wan_plus.Topology.Bfs.{Neighbor, Adj, add_neighbor, add_link, enabled_adj_from, enabled_adj}

abbrev pub ids : List Neighbor → List String
ids = map (λ n. n.node_id)

-- The map lists `v` beside `u`.
abbrev pub Edge : Adj → String → String → Type 0
Edge adj u v = Member v (ids (adj u))

-- A walk along a relation, with the given number of edges.
pub data Walk (R : String → String → Type 0) (s : String) : ℕ → String → Type 0 where
  here : {v : String} → s ≡ v → Walk R s 0 v
  step : {k : ℕ} {u v : String} → Walk R s k u → R u v → Walk R s (suc k) v

pub Walk-mono :
    {R S : String → String → Type 0} {s v : String} {k : ℕ}
    → ((a b : String) → R a b → S a b)
    → Walk R s k v
    → Walk S s k v
Walk-mono f (here e) = here e
Walk-mono f (step {u = u} {v = v} w r) = step (Walk-mono f w) (f u v r)

pub Memᴰ-concat {ℓ} :
    {A : Type ℓ} (a x : A) (xs : List A) → Memᴰ a (xs ++ x ∷ []) ↔ (Memᴰ a xs ⊎ (a ≡ x))
Memᴰ-concat a x xs = (
  λ m. elim (Memᴰ.append_cases xs m) [ inl k ↦ inl k | inr k ↦ inr (Memᴰ.eq_of_singleton k) ],
  elim [ inl k ↦ Memᴰ.append_left _ k | inr e ↦ Memᴰ.append_right xs (Memᴰ.head e) ],
)

-- What a link puts beside `u`.
abbrev pub Beside : WireGuardLink → String → Neighbor → Type 0
Beside l u n =
    (l.node_a ≡ u) × (n ≡ record { node_id = l.node_b; link_id = l.id; iface = l.interface_name_a })
    ⊎ (l.node_b ≡ u)
      × (n ≡ record { node_id = l.node_a; link_id = l.id; iface = l.interface_name_b })

-- One enabled link of the list puts the neighbour `n` beside `u`.
abbrev pub Gives : List WireGuardLink → String → Neighbor → Type 0
Gives [] u n = ⊥
Gives (l ∷ ls) u n = (l.enabled ≡ true) × Beside l u n ⊎ Gives ls u n

Memᴰ-add_neighbor :
    (adj : Adj) (k u : String) (x n : Neighbor)
    → Memᴰ n (add_neighbor adj k x u) ↔ (Memᴰ n (adj u) ⊎ (k ≡ u) × (n ≡ x))
unfolding add_neighbor
Memᴰ-add_neighbor adj k u x n = elim (==-cases k u) [
  | inl (e, t) ↦ rw t (ground (arith, Memᴰ-concat n x (adj u)))
  | inr (e, t) ↦ rw t (ground arith)
]

Memᴰ-add_link :
    (adj : Adj) (l : WireGuardLink) (u : String) (n : Neighbor)
    → Memᴰ n (add_link adj l u) ↔ (Memᴰ n (adj u) ⊎ Beside l u n)
unfolding add_link
Memᴰ-add_link adj l u n =
    let a : Neighbor = record { node_id = l.node_b; link_id = l.id; iface = l.interface_name_a } in
    let b : Neighbor = record { node_id = l.node_a; link_id = l.id; iface = l.interface_name_b } in
    ground (
      arith,
      Memᴰ-add_neighbor (add_neighbor adj l.node_a a) l.node_b u b n,
      Memᴰ-add_neighbor adj l.node_a u a n,
    )

Memᴰ-enabled_adj_from :
    (adj : Adj) (ls : List WireGuardLink) (u : String) (n : Neighbor)
    → Memᴰ n (enabled_adj_from adj ls u) ↔ (Memᴰ n (adj u) ⊎ Gives ls u n)
unfolding enabled_adj_from
Memᴰ-enabled_adj_from adj [] u n = ground arith
Memᴰ-enabled_adj_from adj (l ∷ ls) u n = elim (Bool-cases l.enabled) [
  | inl e ↦
      rw e (ground (arith, Memᴰ-enabled_adj_from (add_link adj l) ls u n, Memᴰ-add_link adj l u n))
  | inr e ↦ rw e (ground (arith, Memᴰ-enabled_adj_from adj ls u n))
]

-- `EnabledAdj` lists exactly the other ends of the enabled links, with the interface on this side.
pub Memᴰ-enabled_adj :
    (ls : List WireGuardLink) (u : String) (n : Neighbor) → Memᴰ n (enabled_adj ls u) ↔ Gives ls u n
unfolding enabled_adj
Memᴰ-enabled_adj ls u n = ground (
  arith,
  Memᴰ-enabled_adj_from (λ _. []) ls u n,
  λ (m : Memᴰ {A = Neighbor} n []). Memᴰ.not-nil m,
)

-- No node has more than two entries for each link.
length-add_neighbor :
    (adj : Adj) (k u : String) (x : Neighbor) → length (add_neighbor adj k x u) ≤ length (adj u) + 1
unfolding add_neighbor
length-add_neighbor adj k u x = ground (arith, length-append (adj u) (x ∷ []))

length-add_link :
    (adj : Adj) (l : WireGuardLink) (u : String) → length (add_link adj l u) ≤ length (adj u) + 2
unfolding add_link
length-add_link adj l u =
    let a : Neighbor = record { node_id = l.node_b; link_id = l.id; iface = l.interface_name_a } in
    let b : Neighbor = record { node_id = l.node_a; link_id = l.id; iface = l.interface_name_b } in
    omega (
      arith,
      length-add_neighbor (add_neighbor adj l.node_a a) l.node_b u b,
      length-add_neighbor adj l.node_a u a,
    )

length-enabled_adj_from :
    (adj : Adj) (ls : List WireGuardLink) (u : String)
    → length (enabled_adj_from adj ls u) ≤ length (adj u) + 2 * length ls
unfolding enabled_adj_from
length-enabled_adj_from adj [] u = omega arith
length-enabled_adj_from adj (l ∷ ls) u = ground (
  arith,
  length-enabled_adj_from (add_link adj l) ls u,
  length-enabled_adj_from adj ls u,
  length-add_link adj l u,
)

pub length-enabled_adj :
    (ls : List WireGuardLink) (u : String) → length (enabled_adj ls u) ≤ 2 * length ls
unfolding enabled_adj
length-enabled_adj ls u = omega (arith, length-enabled_adj_from (λ _. []) ls u)

-- `EnabledAdj` lists `v` beside `u` exactly when an enabled link joins them.
Member-ids :
    (v : String) (n : Neighbor) (ns : List Neighbor) → Memᴰ n ns → n.node_id ≡ v → Member v (ids ns)
Member-ids v n [] h x = absurd (Memᴰ.not-nil h)
Member-ids v n (m ∷ ns) (Memᴰ.head e) x = inl (sym x ∙ ap (λ k. k.node_id) e)
Member-ids v n (m ∷ ns) (Memᴰ.tail h) x = inr (Member-ids v n ns h x)

ids-Member :
    (v : String) (ns : List Neighbor)
    → Member v (ids ns)
    → (n : Neighbor) × Memᴰ n ns × (n.node_id ≡ v)
ids-Member v [] m = absurd m
ids-Member v (n ∷ ns) (inl e) = (n, Memᴰ.head refl, sym e)
ids-Member v (n ∷ ns) (inr m) = let (k, h, e) = ids-Member v ns m in (k, Memᴰ.tail h, e)

Gives-Linked :
    (ls : List WireGuardLink) (u v : String) (n : Neighbor)
    → n.node_id ≡ v
    → Gives ls u n
    → Linked ls u v
Gives-Linked [] u v n e g = absurd g
Gives-Linked (l ∷ ls) u v n e g = ground (arith, Gives-Linked ls u v n e)

Linked-Gives :
    (ls : List WireGuardLink) (u v : String)
    → Linked ls u v
    → (n : Neighbor) × (n.node_id ≡ v) × Gives ls u n
Linked-Gives [] u v g = absurd g
Linked-Gives (l ∷ ls) u v (inl (on, inl (a, b))) = (
  record { node_id = l.node_b; link_id = l.id; iface = l.interface_name_a },
  b,
  inl (on, inl (a, refl)),
)
Linked-Gives (l ∷ ls) u v (inl (on, inr (a, b))) = (
  record { node_id = l.node_a; link_id = l.id; iface = l.interface_name_b },
  a,
  inl (on, inr (b, refl)),
)
Linked-Gives (l ∷ ls) u v (inr g) = let (n, e, h) = Linked-Gives ls u v g in (n, e, inr h)

pub Edge-enabled_adj :
    (ls : List WireGuardLink) (u v : String) → Edge (enabled_adj ls) u v ↔ Linked ls u v
Edge-enabled_adj ls u v = (
  λ m.
      let (n, h, e) = ids-Member v (enabled_adj ls u) m in
      Gives-Linked ls u v n e ((Memᴰ-enabled_adj ls u n).0 h),
  λ k.
      let (n, e, g) = Linked-Gives ls u v k in
      Member-ids v n (enabled_adj ls u) ((Memᴰ-enabled_adj ls u n).1 g) e,
)
