-- ===== src/Routing/Allowed.antt =====
-- The AllowedIPs that `Compile` gives to the interfaces of a node, and the routes of the main table.
use sd_wan_plus.Base.{
  ℕ, zero, suc, ◌<◌, String, ◌==◌, eq_iff, ◌≡◌, refl, sym, ap, subst, ◌≢◌, ◌↔◌, ◌⊎◌, inl, inr, ◌||◌,
  Bool-cases, some, Option-cases, List, [], ◌∷◌, contains_iff, Member, Member-append, All, All-mono,
  Any, length, Dict, lookup, arith,
}
use sd_wan_plus.Core.Types.{Node, WireGuardLink}
use sd_wan_plus.Topology.Tree.{NextHopResult, control_next_hop}
use sd_wan_plus.Routing.Types.{WireGuardLinkCfg, RouteCfg, RouteTableCfg}
use sd_wan_plus.Routing.MainTable.{Routed, destinations, Added, append_overlay_route-Added}
use sd_wan_plus.Routing.Compile.{
  ensure_host_cidr, append_unique_cidr, host_route, allow_at, Overlay, add_reach, over_link, reach,
  reach_all,
}

-- The AllowedIPs of the configuration at an index.
abbrev pub allowed_at : List WireGuardLinkCfg → ℕ → List String
allowed_at [] i = []
allowed_at (c ∷ cs) zero = c.allowed_ips
allowed_at (c ∷ cs) (suc i) = allowed_at cs i

Member-append_unique_cidr :
    (list : List String) (cidr d : String)
    → Member d (append_unique_cidr list cidr) ↔ (Member d list ⊎ (d ≡ cidr) × (cidr ≢ ""))
unfolding append_unique_cidr
Member-append_unique_cidr list cidr d =
    ground (arith, eq_iff cidr "", contains_iff list cidr, Member-append d list (cidr ∷ []))

length-allow_at :
    (cs : List WireGuardLinkCfg) (i : ℕ) (cidr : String) → length (allow_at cs i cidr) ≡ length cs
unfolding allow_at
length-allow_at [] i cidr = refl
length-allow_at (c ∷ cs) zero cidr = refl
length-allow_at (c ∷ cs) (suc i) cidr = ap suc (length-allow_at cs i cidr)

Member-allow_at :
    (cs : List WireGuardLinkCfg) (i j : ℕ) (cidr d : String)
    → i < length cs
    → Member d (allowed_at (allow_at cs i cidr) j)
      ↔ (Member d (allowed_at cs j) ⊎ (i ≡ j) × (d ≡ cidr) × (cidr ≢ ""))
unfolding allow_at
Member-allow_at [] i j cidr d h = absurd (omega arith)
Member-allow_at (c ∷ cs) zero zero cidr d h =
    ground (arith, Member-append_unique_cidr c.allowed_ips cidr d)
Member-allow_at (c ∷ cs) zero (suc j) cidr d h = ground arith
Member-allow_at (c ∷ cs) (suc i) zero cidr d h = ground arith
Member-allow_at (c ∷ cs) (suc i) (suc j) cidr d h =
    ground (arith, Member-allow_at cs i j cidr d (omega arith))

All-Any : {A : Type 0} (P : A → Type 0) (r : A) (xs : List A) → All P xs → Any (λ q. r ≡ q) xs → P r
All-Any P r [] a x = absurd x
All-Any P r (y ∷ xs) a (inl e) = subst P (sym e) a.0
All-Any P r (y ∷ xs) a (inr x) = All-Any P r xs a.1 x

module _ (nodes : List Node) (links : List WireGuardLink) (idx : Dict ℕ) (n : Node) where
  -- The control tree leads from `n` to `m` over the hop, whose link is at `i`.
  pub record Over (m : Node) (hop : NextHopResult) (i : ℕ) : Type 0 where
    pub other : m.id ≢ n.id
    pub addressed : m.overlay_ipv4 ≢ ""
    pub hops : control_next_hop nodes links n.id m.id ≡ some hop
    pub placed : lookup hop.link_id idx ≡ some i

  pub reach-cases :
      (st : Overlay) (m : Node)
      → ((hop : NextHopResult) × (i : ℕ) × Over m hop i
          × (reach nodes links idx n st m ≡ add_reach nodes links idx n m hop st i))
        ⊎ ((hop : NextHopResult) (i : ℕ) → ¬ Over m hop i) × (reach nodes links idx n st m ≡ st)
  unfolding reach over_link
  reach-cases st m = elim (Bool-cases (m.id == n.id || m.overlay_ipv4 == "")) [
    | inl e ↦ inr (
      λ hop i o. ground (arith, o.other, o.addressed, eq_iff m.id n.id, eq_iff m.overlay_ipv4 ""),
      rw (e, reach),
    )
    | inr e ↦ elim (Option-cases (control_next_hop nodes links n.id m.id)) [
      | inl c ↦ inr (λ hop i o. ground (arith, o.hops), rw (e, c, reach))
      | inr (hop, c) ↦ elim (Option-cases (lookup hop.link_id idx)) [
        | inl k ↦
            inr
              (λ hop' i o. let x = o.hops in let y = o.placed in cc, rw (e, c, k, reach, over_link))
        | inr (i, k) ↦ inl (
          hop,
          i,
          record {
            other = ground (arith, eq_iff m.id n.id);
            addressed = ground (arith, eq_iff m.overlay_ipv4 "");
            hops = c;
            placed = k;
          },
          rw (e, c, k, reach, over_link),
        )
      ]
    ]
  ]

  -- The cidr of `m` is `d`, and it is let through at `j`.
  abbrev pub Through : ℕ → String → Node → Type 0
  Through j d m =
      ((hop : NextHopResult) × Over m hop j) × (d ≡ ensure_host_cidr m.overlay_ipv4) × (d ≢ "")

  pub Over-same :
      {m : Node} {hop hop' : NextHopResult} {i j : ℕ} → Over m hop i → Over m hop' j → i ≡ j
  Over-same a b = let x = a.hops in let y = b.hops in let z = a.placed in let w = b.placed in cc

  abbrev pub Valid : ℕ → Type 0
  Valid len = (k : String) (i : ℕ) → lookup k idx ≡ some i → i < len

  reach-allowed :
      (st : Overlay) (m : Node) (j : ℕ) (d : String)
      → Valid (length st.cfgs)
      → Member d (allowed_at (reach nodes links idx n st m).cfgs j)
        ↔ (Member d (allowed_at st.cfgs j) ⊎ Through j d m)
  unfolding add_reach
  reach-allowed st m j d valid = elim (reach-cases st m) [
    | inl (hop, i, o, e) ↦ rw e (
        ground (
          arith,
          Member-allow_at st.cfgs i j (ensure_host_cidr m.overlay_ipv4) d
              (valid hop.link_id i o.placed),
        ))
    | inr (f, e) ↦ rw e (λ x. inl x, elim [ inl x ↦ x | inr ((hop, o), _, _) ↦ absurd (f hop j o) ])
  ]

  length-reach :
      (st : Overlay) (m : Node) → length (reach nodes links idx n st m).cfgs ≡ length st.cfgs
  unfolding add_reach
  length-reach st m = elim (reach-cases st m) [
    | inl (hop, i, o, e) ↦ rw e (length-allow_at st.cfgs i (ensure_host_cidr m.overlay_ipv4))
    | inr (f, e) ↦ rw e refl
  ]

  pub reach_all-allowed :
      (st : Overlay) (ms : List Node) (j : ℕ) (d : String)
      → Valid (length st.cfgs)
      → Member d (allowed_at (reach_all nodes links idx n st ms).cfgs j)
        ↔ (Member d (allowed_at st.cfgs j) ⊎ Any (Through j d) ms)
  unfolding reach_all
  reach_all-allowed st [] j d valid = ground arith
  reach_all-allowed st (m ∷ ms) j d valid =
      let here = reach-allowed st m j d valid in
      let later =
        reach_all-allowed (reach nodes links idx n st m) ms j d
          (λ k i e. subst (λ l. i < l) (sym (length-reach st m)) (valid k i e)) in
      ground (arith, here, later)

  -- The route is the one to `m`.
  abbrev pub Sends : RouteCfg → Node → Type 0
  Sends r m =
      (hop : NextHopResult) × (i : ℕ) × Over m hop i
      × (r ≡ host_route (ensure_host_cidr m.overlay_ipv4) hop.iface)

  -- The cidr of `m` is `d`, and the control tree leads there.
  abbrev pub Reached : String → Node → Type 0
  Reached d m =
      ((hop : NextHopResult) × (i : ℕ) × Over m hop i) × (d ≡ ensure_host_cidr m.overlay_ipv4)

  -- What the loop over the nodes leaves in the tables.
  pub record Tables (tables : List RouteTableCfg) (routes : List RouteCfg) (ms : List Node)
      : Type 0 where
    pub after : List RouteCfg
    pub routed : Routed tables after
    pub holds :
        (d : String)
        → Member d (destinations after) ↔ (Member d (destinations routes) ⊎ Any (Reached d) ms)
    pub sends : All (λ r. Any (λ q. r ≡ q) routes ⊎ Any (Sends r) ms) after

  All-same : (rs : List RouteCfg) → All (λ r. Any (λ q. r ≡ q) rs) rs
  All-same [] = tt
  All-same (r ∷ rs) = (inl refl, All-mono rs (λ q a. inr a) (All-same rs))

  pub reach_all-Tables :
      (st : Overlay) (routes : List RouteCfg) (ms : List Node)
      → Routed st.tables routes
      → Tables (reach_all nodes links idx n st ms).tables routes ms
  unfolding reach_all add_reach
  reach_all-Tables st routes [] h = record {
    after = routes;
    routed = h;
    holds = λ d. ground arith;
    sends = All-mono routes (λ r a. inl a) (All-same routes);
  }
  reach_all-Tables st routes (m ∷ ms) h = elim (reach-cases st m) [
    | inl (hop, i, o, e) ↦
        let a =
          append_overlay_route-Added st.tables routes (ensure_host_cidr m.overlay_ipv4) hop.iface
            h in
        add hop i o a (reach_all-Tables (reach nodes links idx n st m) a.after ms (rw e a.routed))
    | inr (f, e) ↦ skip f (reach_all-Tables (reach nodes links idx n st m) routes ms (rw e h))
  ]
    where
      skip :
          ((hop : NextHopResult) (i : ℕ) → ¬ Over m hop i)
          → Tables (reach_all nodes links idx n (reach nodes links idx n st m) ms).tables routes ms
          → Tables
              (reach_all nodes links idx n (reach nodes links idx n st m) ms).tables
              routes
              (m ∷ ms)
      skip f t = record {
        after = t.after;
        routed = t.routed;
        holds = λ d. (
          λ x. elim ((t.holds d).0 x) [ inl a ↦ inl a | inr b ↦ inr (inr b) ],
          elim [
            | inl a ↦ (t.holds d).1 (inl a)
            | inr (inl ((hop, i, o), _)) ↦ absurd (f hop i o)
            | inr (inr b) ↦ (t.holds d).1 (inr b)
          ],
        );
        sends = All-mono t.after (λ r. elim [ inl a ↦ inl a | inr b ↦ inr (inr b) ]) t.sends;
      }

      add :
          (hop : NextHopResult) (i : ℕ)
          → Over m hop i
          → (a : Added st.tables routes (ensure_host_cidr m.overlay_ipv4) hop.iface)
          → Tables (reach_all nodes links idx n (reach nodes links idx n st m) ms).tables a.after ms
          → Tables
              (reach_all nodes links idx n (reach nodes links idx n st m) ms).tables
              routes
              (m ∷ ms)
      add hop i o a t = record {
        after = t.after;
        routed = t.routed;
        holds = λ d. (
          λ x. elim ((t.holds d).0 x) [
            | inl y ↦ elim ((a.holds d).0 y) [ inl z ↦ inl z | inr z ↦ inr (inl ((hop, i, o), z)) ]
            | inr b ↦ inr (inr b)
          ],
          elim [
            | inl z ↦ (t.holds d).1 (inl ((a.holds d).1 (inl z)))
            | inr (inl (_, z)) ↦ (t.holds d).1 (inl ((a.holds d).1 (inr z)))
            | inr (inr b) ↦ (t.holds d).1 (inr b)
          ],
        );
        sends =
            All-mono t.after
              (λ r. elim [
                | inl y ↦
                    elim (All-Any (λ q. Any (λ p. q ≡ p) routes ⊎ Sends q m) r a.after known y) [
                      | inl z ↦ inl z
                      | inr z ↦ inr (inl z)
                    ]
                | inr b ↦ inr (inr b)
              ])
              t.sends;
      }
        where
          known : All (λ q. Any (λ p. q ≡ p) routes ⊎ Sends q m) a.after
          known =
              a.kept (λ q. Any (λ p. q ≡ p) routes ⊎ Sends q m)
                (All-mono routes (λ q x. inl x) (All-same routes)) (inr (hop, i, o, refl))
