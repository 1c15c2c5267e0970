-- ===== src/Routing/Carried.antt =====
-- Which nodes the interface of a link carries traffic for, by the link that the interface names.
use sd_wan_plus.Base.{
  ℕ, zero, suc, String, ==-cases, ◌≡◌, refl, sym, ap, ◌∙◌, subst, ◌≢◌, ◌⊎◌, ◌↔◌, inl, inr,
  Bool-cases, Option, some, List, [], ◌∷◌, ◌++◌, Member, Distinct, Any, Any-mono, map, length,
  get_elem?, Dict, lookup, arith,
}
use sd_wan_plus.Core.Types.{Node, WireGuardLink, WireGuardLinkEndpoint}
use sd_wan_plus.Topology.Tree.{NextHopResult, control_next_hop}
use sd_wan_plus.Netutil.{Ip}
use sd_wan_plus.Routing.Types.{WireGuardLinkCfg, NodeDesiredState}
use sd_wan_plus.Routing.Links.{concerns}
use sd_wan_plus.Routing.Compile.{
  ensure_host_cidr, allow_at, Overlay, add_reach, reach, reach_all, build_links, sort_allowed,
  text_or, node_links, node_overlay, node_state,
}
use sd_wan_plus.Routing.Allowed.{allowed_at, Through, reach-cases}
use sd_wan_plus.Routing.Placed.{Named, link_cfg-bare}
use sd_wan_plus.Routing.Peers.{compiled, built, built-Placed, compiled-Through_iff}

abbrev link_ids : List WireGuardLinkCfg → List String
link_ids cfgs = map (λ c. c.link_id) cfgs

-- The interface at the index is that of the link with the id.
abbrev pub LinkAt : List WireGuardLinkCfg → ℕ → String → Type 0
LinkAt cfgs i k = get_elem? (link_ids cfgs) i ≡ some k

-- The loop over the nodes and the sorting leave the links of the interfaces.
allow_at-ids :
    (cs : List WireGuardLinkCfg) (i : ℕ) (cidr : String)
    → link_ids (allow_at cs i cidr) ≡ link_ids cs
unfolding allow_at
allow_at-ids [] i cidr = refl
allow_at-ids (c ∷ cs) zero cidr = refl
allow_at-ids (c ∷ cs) (suc i) cidr = ap (λ t. c.link_id ∷ t) (allow_at-ids cs i cidr)

sorted-ids : (cs : List WireGuardLinkCfg) → link_ids (map sort_allowed cs) ≡ link_ids cs
unfolding sort_allowed
sorted-ids [] = refl
sorted-ids (c ∷ cs) = ap (λ t. c.link_id ∷ t) (sorted-ids cs)

module _ (nodes : List Node) (links : List WireGuardLink) (idx : Dict ℕ) (n : Node) where
  reach-ids :
      (st : Overlay) (m : Node) → link_ids (reach nodes links idx n st m).cfgs ≡ link_ids st.cfgs
  unfolding add_reach
  reach-ids st m = elim (reach-cases nodes links idx n st m) [
    | inl (hop, i, o, e) ↦ rw e (allow_at-ids st.cfgs i (ensure_host_cidr m.overlay_ipv4))
    | inr (f, e) ↦ rw e refl
  ]

  reach_all-ids :
      (st : Overlay) (ms : List Node)
      → link_ids (reach_all nodes links idx n st ms).cfgs ≡ link_ids st.cfgs
  unfolding reach_all
  reach_all-ids st [] = refl
  reach_all-ids st (m ∷ ms) = reach_all-ids (reach nodes links idx n st m) ms ∙ reach-ids st m

Named-LinkAt :
    (cfgs : List WireGuardLinkCfg) (i : ℕ) (k : String) → Named cfgs i k → LinkAt cfgs i k
Named-LinkAt [] i k (c, e, same) = absurd (cc e)
Named-LinkAt (b ∷ cfgs) zero k (c, e, same) = let x : some b ≡ some c = e in cc
Named-LinkAt (b ∷ cfgs) (suc i) k h = Named-LinkAt cfgs i k h

LinkAt-concat :
    (cfgs : List WireGuardLinkCfg) (c : WireGuardLinkCfg) (i : ℕ) (k : String)
    → LinkAt (cfgs ++ c ∷ []) i k
    → LinkAt cfgs i k ⊎ (i ≡ length cfgs) × (c.link_id ≡ k)
LinkAt-concat [] c zero k h = inr (refl, cc)
LinkAt-concat [] c (suc i) k h = absurd (cc h)
LinkAt-concat (b ∷ cfgs) c zero k h = inl h
LinkAt-concat (b ∷ cfgs) c (suc i) k h = elim (LinkAt-concat cfgs c i k h) [
  | inl x ↦ inl x
  | inr (e, x) ↦ inr (ap suc e, x)
]

-- The index of every interface is filed under its link, and no link that is left is among them.
record Indexed (idx : Dict ℕ) (cfgs : List WireGuardLinkCfg) (ls : List WireGuardLink)
    : Type 0 where
  filed : (i : ℕ) (k : String) → LinkAt cfgs i k → lookup k idx ≡ some i
  fresh : (i : ℕ) (k : String) → LinkAt cfgs i k → ¬ Member k (map (λ l. l.id) ls)

module _ (cfg : WireGuardLink → WireGuardLinkCfg) (n : String)
    (same_id : (l : WireGuardLink) → (cfg l).link_id ≡ l.id) where
  Indexed-cons :
      (idx : Dict ℕ) (cfgs : List WireGuardLinkCfg) (l : WireGuardLink) (ls : List WireGuardLink)
      → ¬ Member l.id (map (λ k. k.id) ls)
      → Indexed idx cfgs (l ∷ ls)
      → Indexed ((l.id, length cfgs) ∷ idx) (cfgs ++ cfg l ∷ []) ls
  Indexed-cons idx cfgs l ls new h = record {
    filed = λ i k x. elim (==-cases l.id k) [
      | inl (e, t) ↦ elim (LinkAt-concat cfgs (cfg l) i k x) [
        | inl y ↦ absurd (h.fresh i k y (inl (sym e)))
        | inr (y, z) ↦ ground (arith, t)
      ]
      | inr (e, t) ↦ elim (LinkAt-concat cfgs (cfg l) i k x) [
        | inl y ↦ let f = h.filed i k y in ground (arith, t)
        | inr (y, z) ↦ absurd (e (sym (same_id l) ∙ z))
      ]
    ];
    fresh = λ i k x m. elim (LinkAt-concat cfgs (cfg l) i k x) [
      | inl y ↦ h.fresh i k y (inr m)
      | inr (y, z) ↦ new (subst (λ t. Member t (map (λ q. q.id) ls)) (sym z ∙ same_id l) m)
    ];
  }

  build_links-filed :
      (ls : List WireGuardLink) (idx : Dict ℕ) (cfgs : List WireGuardLinkCfg)
      → Distinct (map (λ l. l.id) ls)
      → Indexed idx cfgs ls
      → (i : ℕ) (k : String) → LinkAt (build_links cfg n ls idx cfgs).1 i k
      → lookup k (build_links cfg n ls idx cfgs).0 ≡ some i
  unfolding build_links
  build_links-filed [] idx cfgs d h i k = h.filed i k
  build_links-filed (l ∷ ls) idx cfgs d h i k = elim (Bool-cases (concerns n l)) [
    | inl e ↦ rw e (
        build_links-filed ls ((l.id, length cfgs) ∷ idx) (cfgs ++ cfg l ∷ []) d.1
          (Indexed-cons idx cfgs l ls d.0 h) i k)
    | inr e ↦ rw e (
        build_links-filed ls idx cfgs d.1
          (record { filed = h.filed; fresh = λ j q y m. h.fresh j q y (inr m) }) i k)
  ]

module _ (split_host_port : String → Option (String × String)) (parse_ip : String → Option Ip)
    (sha256_of_json : NodeDesiredState → Option String) (decrypt : String → Option String)
    (list_link_endpoints : String → Option (List WireGuardLinkEndpoint)) (nodes : List Node)
    (links : List WireGuardLink) (generation : ℕ) (n : Node) where
  abbrev state : NodeDesiredState
  state =
      compiled split_host_port parse_ip sha256_of_json decrypt list_link_endpoints nodes links
        generation n

  abbrev loop : Dict ℕ × List WireGuardLinkCfg
  loop =
      built split_host_port parse_ip sha256_of_json decrypt list_link_endpoints nodes links
        generation n

  -- The interface at `j` is that of the link over which ControlNextHop leads to the node `m`, whose
  -- cidr is `d`.
  abbrev pub Carried : ℕ → String → Node → Type 0
  Carried j d m =
      (m.id ≢ n.id)
      × (m.overlay_ipv4 ≢ "")
      × ((hop : NextHopResult) × (control_next_hop nodes links n.id m.id ≡ some hop)
          × LinkAt state.wireguard_links j hop.link_id)
      × (d ≡ ensure_host_cidr m.overlay_ipv4)
      × (d ≢ "")

  state-ids : link_ids state.wireguard_links ≡ link_ids loop.1
  unfolding node_state node_overlay
  state-ids =
      sorted-ids (reach_all nodes links loop.0 n (record { cfgs = loop.1; tables = [] }) nodes).cfgs
      ∙ reach_all-ids nodes links loop.0 n (record { cfgs = loop.1; tables = [] }) nodes

  LinkAt-loop : (j : ℕ) (k : String) → LinkAt state.wireguard_links j k ↔ LinkAt loop.1 j k
  LinkAt-loop j k = (
    subst (λ ids. get_elem? ids j ≡ some k) state-ids,
    subst (λ ids. get_elem? ids j ≡ some k) (sym state-ids),
  )

  loop-filed :
      Distinct (map (λ l. l.id) links)
      → (j : ℕ) (k : String) → LinkAt loop.1 j k
      → lookup k loop.0 ≡ some j
  unfolding node_links
  loop-filed d =
      build_links-filed _ n.id
        (λ l.
          (link_cfg-bare split_host_port parse_ip nodes
            (text_or (decrypt n.wg_private_key_encrypted)) n l (list_link_endpoints l.id)).0)
        links [] [] d (record { filed = λ i k h. absurd (cc h); fresh = λ i k h. absurd (cc h) })

  loop-LinkAt : (j : ℕ) (k : String) → lookup k loop.0 ≡ some j → LinkAt loop.1 j k
  loop-LinkAt j k h = Named-LinkAt loop.1 j k (
      (built-Placed split_host_port parse_ip sha256_of_json decrypt list_link_endpoints nodes links
          generation n).named
        k j h)

  Through-Carried :
      (j : ℕ) (d : String) (m : Node) → Through nodes links loop.0 n j d m → Carried j d m
  Through-Carried j d m ((hop, o), e, f) = (
    o.other,
    o.addressed,
    (hop, o.hops, (LinkAt-loop j hop.link_id).1 (loop-LinkAt j hop.link_id o.placed)),
    e,
    f,
  )

  Carried-Through :
      Distinct (map (λ l. l.id) links)
      → (j : ℕ) (d : String) (m : Node) → Carried j d m
      → Through nodes links loop.0 n j d m
  Carried-Through ids j d m (other, addressed, (hop, h, at), e, f) = (
    (
      hop,
      record {
        other = other;
        addressed = addressed;
        hops = h;
        placed = loop-filed ids j hop.link_id ((LinkAt-loop j hop.link_id).0 at);
      },
    ),
    e,
    f,
  )

  -- If the ids of the links are distinct, a destination is among the AllowedIPs of the interface at an
  -- index exactly when it is the cidr of another node to which ControlNextHop leads over the link that
  -- this interface names.
  pub compiled-allowed_iff :
      Distinct (map (λ l. l.id) links)
      → (j : ℕ) (d : String)
      → Member d (allowed_at state.wireguard_links j) ↔ Any (Carried j d) nodes
  compiled-allowed_iff ids j d =
      let t =
        compiled-Through_iff split_host_port parse_ip sha256_of_json decrypt list_link_endpoints
          nodes links generation n j d in
      (
        λ m. Any-mono nodes (Through-Carried j d) (t.0 m),
        λ x. t.1 (Any-mono nodes (Carried-Through ids j d) x),
      )
