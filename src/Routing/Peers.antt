-- ===== src/Routing/Peers.antt =====
-- What the desired state that `Compile` builds for a node lets through, and where it routes.
use sd_wan_plus.Base.{
  ℕ, zero, suc, String, ◌≡◌, refl, sym, ap, ◌∙◌, subst, ◌≢◌, ◌↔◌, inl, inr, Option, some, List, [],
  ◌∷◌, Member, Member-sort_strings, Distinct, All, Any, Any-mono, map, Dict, lookup, arith,
}
use sd_wan_plus.Core.Types.{Node, WireGuardLink, WireGuardLinkEndpoint}
use sd_wan_plus.Topology.Tree.{NextHopResult, control_next_hop}
use sd_wan_plus.Topology.Tree.Deliver.{control_next_hop-Offered}
use sd_wan_plus.Netutil.{Ip}
use sd_wan_plus.Routing.Types.{WireGuardLinkCfg, NodeDesiredState, RouteCfg}
use sd_wan_plus.Routing.Links.{link_cfg}
use sd_wan_plus.Routing.Compile.{
  ensure_host_cidr, reach_all, sort_allowed, text_or, node_links, node_overlay, node_state,
}
use sd_wan_plus.Routing.MainTable.{destinations, IsMain}
use sd_wan_plus.Routing.Allowed.{
  allowed_at, Through, reach_all-allowed, Reached, Tables, reach_all-Tables,
}
use sd_wan_plus.Routing.Placed.{
  Placed, Placed-lt, build_links-Placed, build_links-Filed, Filed, Offered-Concerned, link_cfg-bare,
}

Member-sorted :
    (cs : List WireGuardLinkCfg) (j : ℕ) (d : String)
    → Member d (allowed_at (map sort_allowed cs) j) ↔ Member d (allowed_at cs j)
unfolding sort_allowed
Member-sorted [] j d = ground arith
Member-sorted (c ∷ cs) zero d = Member-sort_strings d c.allowed_ips
Member-sorted (c ∷ cs) (suc j) d = Member-sorted cs j d

-- The owner of an overlay cidr: every node that has an overlay address owns the cidr of it.
abbrev pub Owns : (String → String) → Node → Type 0
Owns owner m = m.overlay_ipv4 ≢ "" → owner (ensure_host_cidr m.overlay_ipv4) ≡ m.id

-- The control tree leads from `n` to the node `m`, whose cidr is `d`.
abbrev pub Led : List Node → List WireGuardLink → Node → String → Node → Type 0
Led nodes links n d m =
    (m.id ≢ n.id)
    × (m.overlay_ipv4 ≢ "")
    × ((hop : NextHopResult) × (control_next_hop nodes links n.id m.id ≡ some hop))
    × (d ≡ ensure_host_cidr m.overlay_ipv4)

All-Any-pair :
    {A : Type 0} {P Q R : A → Type 0} (xs : List A)
    → ((x : A) → P x → Q x → R x)
    → All P xs
    → Any Q xs
    → Any R xs
All-Any-pair [] f a y = y
All-Any-pair (x ∷ xs) f a (inl q) = inl (f x a.0 q)
All-Any-pair (x ∷ xs) f a (inr y) = inr (All-Any-pair xs f a.1 y)

Any-const :
    {A : Type 0} {C : Type 0} {P : A → Type 0} (xs : List A) → ((x : A) → P x → C) → Any P xs → C
Any-const [] f y = absurd y
Any-const (x ∷ xs) f (inl p) = f x p
Any-const (x ∷ xs) f (inr y) = Any-const xs f y

module _ (split_host_port : String → Option (String × String)) (parse_ip : String → Option Ip)
    (sha256_of_json : NodeDesiredState → Option String) (decrypt : String → Option String)
    (list_link_endpoints : String → Option (List WireGuardLinkEndpoint)) (nodes : List Node)
    (links : List WireGuardLink) (generation : ℕ) (n : Node) where
  abbrev pub built : Dict ℕ × List WireGuardLinkCfg
  built =
      node_links split_host_port parse_ip sha256_of_json decrypt list_link_endpoints nodes links
        generation n

  abbrev pub compiled : NodeDesiredState
  compiled =
      node_state split_host_port parse_ip sha256_of_json decrypt list_link_endpoints nodes links
        generation n

  pub built-Placed : Placed built.0 built.1
  unfolding node_links
  built-Placed =
      let cfg : WireGuardLink → WireGuardLinkCfg = λ l.
        link_cfg split_host_port parse_ip nodes (text_or (decrypt n.wg_private_key_encrypted)) n l
          (list_link_endpoints l.id) in
      build_links-Placed cfg n.id
        (λ l.
          (link_cfg-bare split_host_port parse_ip nodes
            (text_or (decrypt n.wg_private_key_encrypted)) n l (list_link_endpoints l.id)).0)
        (λ l.
          (link_cfg-bare split_host_port parse_ip nodes
            (text_or (decrypt n.wg_private_key_encrypted)) n l (list_link_endpoints l.id)).1)
        links [] [] (record { named = λ k i h. absurd (cc h); empty = λ j d m. m })

  built-Filed :
      (m : String) (hop : NextHopResult)
      → control_next_hop nodes links n.id m ≡ some hop
      → Filed built.0 hop.link_id
  unfolding node_links
  built-Filed m hop h = build_links-Filed _ n.id hop.link_id links [] [] (
      inr (
        Offered-Concerned n.id hop.peer_id hop.iface hop.link_id links
          (control_next_hop-Offered nodes links n.id m hop h)))

  -- A destination is among the AllowedIPs of an interface exactly when it is the cidr of another node
  -- to which ControlNextHop leads over the link of that interface.
  pub compiled-Through_iff :
      (j : ℕ) (d : String)
      → Member d (allowed_at compiled.wireguard_links j)
        ↔ Any (Through nodes links built.0 n j d) nodes
  unfolding node_state node_overlay
  compiled-Through_iff j d =
      let all =
        reach_all-allowed nodes links built.0 n (record { cfgs = built.1; tables = [] }) nodes j d
          (λ k i h. Placed-lt k i built-Placed h) in
      ground (
        arith,
        all,
        Member-sorted
            (reach_all nodes links built.0 n (record { cfgs = built.1; tables = [] }) nodes).cfgs j
            d,
        built-Placed.empty j d,
      )

  Through-hop :
      (owner : String → String) (j : ℕ) (d : String) (m : Node)
      → Owns owner m
      → Through nodes links built.0 n j d m
      → (hop : NextHopResult) × (control_next_hop nodes links n.id (owner d) ≡ some hop)
        × (lookup hop.link_id built.0 ≡ some j)
  Through-hop owner j d m own ((hop, o), e, _) =
      let same : m.id ≡ owner d = sym (ap owner e ∙ own o.addressed) in
      (hop, subst (λ t. control_next_hop nodes links n.id t ≡ some hop) same o.hops, o.placed)

  -- If no two nodes have the same overlay cidr, then a destination is among the AllowedIPs of at most
  -- one interface of a node: no two WireGuard peers compete for it.
  pub compiled-one_peer :
      (owner : String → String) (i j : ℕ) (d : String)
      → All (Owns owner) nodes
      → Member d (allowed_at compiled.wireguard_links i)
      → Member d (allowed_at compiled.wireguard_links j)
      → i ≡ j
  compiled-one_peer owner i j d own a b =
      let find : (k : ℕ)
          → Member d (allowed_at compiled.wireguard_links k)
          → (hop : NextHopResult) × (control_next_hop nodes links n.id (owner d) ≡ some hop)
            × (lookup hop.link_id built.0 ≡ some k) =
        λ k m.
          Any-const nodes (λ x y. y)
            (All-Any-pair nodes (λ x p q. Through-hop owner k d x p q) own
              ((compiled-Through_iff k d).0 m)) in
      let (h, x, y) = find i a in let (h', x', y') = find j b in cc

  -- What the loop over the nodes leaves in the tables of the desired state.
  compiled-Tables : Tables nodes links built.0 n compiled.route_tables [] nodes
  unfolding node_state node_overlay
  compiled-Tables =
      reach_all-Tables nodes links built.0 n (record { cfgs = built.1; tables = [] }) [] nodes
        (record { main = refl; distinct = tt })

  Reached-Led : (d : String) (m : Node) → Reached nodes links built.0 n d m ↔ Led nodes links n d m
  Reached-Led d m = (
    λ r. let ((hop, i, o), e) = r in (o.other, o.addressed, (hop, o.hops), e),
    λ l.
        let (other, addressed, (hop, h), e) = l in
        let (i, f) = built-Filed m.id hop h in
        ((hop, i, record { other = other; addressed = addressed; hops = h; placed = f }), e),
  )

  -- The desired state has at most one table, the main one, with no destination twice; and its
  -- destinations are the cidrs of the other nodes with an overlay address to which ControlNextHop
  -- leads, all of them: the look-up of the hop's interface never fails.
  pub compiled-routes_iff :
      (routes : List RouteCfg) × IsMain compiled.route_tables routes
      × Distinct (destinations routes)
      × ((d : String) → Member d (destinations routes) ↔ Any (Led nodes links n d) nodes)
  compiled-routes_iff =
      let t = compiled-Tables in
      (
        t.after,
        t.routed.main,
        t.routed.distinct,
        λ d. (
          λ m. elim ((t.holds d).0 m) [
            | inl x ↦ absurd x
            | inr x ↦ Any-mono nodes (λ y r. (Reached-Led d y).0 r) x
          ],
          λ x. (t.holds d).1 (inr (Any-mono nodes (λ y r. (Reached-Led d y).1 r) x)),
        ),
      )
