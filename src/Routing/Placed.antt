-- ===== src/Routing/Placed.antt =====
-- `linkIdx` of `Compile`: which interface each link has, and that every hop has one.
use sd_wan_plus.Base.{
  ℕ, zero, suc, ◌<◌, String, eq_iff, ==-cases, ◌≡◌, refl, sym, ◌∙◌, subst, ◌⊎◌, inl, inr, true,
  false, Bool-cases, Option, some, none, Option-cases, List, [], ◌∷◌, ◌++◌, Member, Any, length,
  get_elem?, Dict, lookup, arith,
}
use sd_wan_plus.Core.Types.{Node, WireGuardLink, WireGuardLinkEndpoint}
use sd_wan_plus.Topology.Links.{Offered}
use sd_wan_plus.Netutil.{Ip}
use sd_wan_plus.Routing.Types.{WireGuardLinkCfg}
use sd_wan_plus.Routing.Links.{
  concerns, link_cfg, base_cfg, with_endpoints, apply_endpoint, own_endpoint, dial_listener,
  default_port, default_keepalive,
}
use sd_wan_plus.Routing.Compile.{build_links}
use sd_wan_plus.Routing.Allowed.{allowed_at}

-- The interface at an index is that of the link with the id.
abbrev pub Named : List WireGuardLinkCfg → ℕ → String → Type 0
Named cfgs i k = (c : WireGuardLinkCfg) × (get_elem? cfgs i ≡ some c) × (c.link_id ≡ k)

pub record Placed (idx : Dict ℕ) (cfgs : List WireGuardLinkCfg) : Type 0 where
  pub named : (k : String) (i : ℕ) → lookup k idx ≡ some i → Named cfgs i k
  pub empty : (j : ℕ) (d : String) → ¬ Member d (allowed_at cfgs j)

get_elem?-lt : {A : Type 0} (xs : List A) (i : ℕ) (a : A) → get_elem? xs i ≡ some a → i < length xs
get_elem?-lt [] i a h = absurd (cc h)
get_elem?-lt (x ∷ xs) zero a h = omega arith
get_elem?-lt (x ∷ xs) (suc i) a h = omega (arith, get_elem?-lt xs i a h)

get_elem?-append :
    {A : Type 0} (xs ys : List A) (i : ℕ) (a : A)
    → get_elem? xs i ≡ some a
    → get_elem? (xs ++ ys) i ≡ some a
get_elem?-append [] ys i a h = absurd (cc h)
get_elem?-append (x ∷ xs) ys zero a h = h
get_elem?-append (x ∷ xs) ys (suc i) a h = get_elem?-append xs ys i a h

get_elem?-length :
    {A : Type 0} (xs : List A) (a : A) → get_elem? (xs ++ a ∷ []) (length xs) ≡ some a
get_elem?-length [] a = refl
get_elem?-length (x ∷ xs) a = get_elem?-length xs a

allowed_at-concat :
    (cs : List WireGuardLinkCfg) (c : WireGuardLinkCfg)
    → c.allowed_ips ≡ []
    → ((j : ℕ) (d : String) → ¬ Member d (allowed_at cs j))
    → (j : ℕ) (d : String) → ¬ Member d (allowed_at (cs ++ c ∷ []) j)
allowed_at-concat [] c e h zero d m = subst (Member d) e m
allowed_at-concat [] c e h (suc j) d m = m
allowed_at-concat (b ∷ cs) c e h zero d m = h 0 d m
allowed_at-concat (b ∷ cs) c e h (suc j) d m = allowed_at-concat cs c e (λ i. h (suc i)) j d m

pub Placed-lt :
    {idx : Dict ℕ} {cfgs : List WireGuardLinkCfg} (k : String) (i : ℕ)
    → Placed idx cfgs
    → lookup k idx ≡ some i
    → i < length cfgs
Placed-lt {cfgs = cfgs} k i p h = let (c, e, _) = p.named k i h in get_elem?-lt cfgs i c e

module _ (cfg : WireGuardLink → WireGuardLinkCfg) (n : String)
    (same_id : (l : WireGuardLink) → (cfg l).link_id ≡ l.id)
    (no_allowed : (l : WireGuardLink) → (cfg l).allowed_ips ≡ []) where
  Placed-cons :
      (idx : Dict ℕ) (cfgs : List WireGuardLinkCfg) (l : WireGuardLink)
      → Placed idx cfgs
      → Placed ((l.id, length cfgs) ∷ idx) (cfgs ++ cfg l ∷ [])
  Placed-cons idx cfgs l p = record {
    named = λ k i h. elim (==-cases l.id k) [
      | inl (e, t) ↦ (
        cfg l,
        subst (λ j. get_elem? (cfgs ++ cfg l ∷ []) j ≡ some (cfg l)) (ground (arith, t))
            (get_elem?-length cfgs (cfg l)),
        same_id l ∙ e,
      )
      | inr (e, t) ↦
          let (c, x, y) = p.named k i (ground (arith, t)) in
          (c, get_elem?-append cfgs (cfg l ∷ []) i c x, y)
    ];
    empty = allowed_at-concat cfgs (cfg l) (no_allowed l) p.empty;
  }

  pub build_links-Placed :
      (ls : List WireGuardLink) (idx : Dict ℕ) (cfgs : List WireGuardLinkCfg)
      → Placed idx cfgs
      → let built = build_links cfg n ls idx cfgs in Placed built.0 built.1
  unfolding build_links
  build_links-Placed [] idx cfgs p = p
  build_links-Placed (l ∷ ls) idx cfgs p = elim (Bool-cases (concerns n l)) [
    | inl e ↦ rw e (
        build_links-Placed ls ((l.id, length cfgs) ∷ idx) (cfgs ++ cfg l ∷ [])
          (Placed-cons idx cfgs l p))
    | inr e ↦ rw e (build_links-Placed ls idx cfgs p)
  ]

-- A link that concerns the node has the id.
abbrev pub Concerned : String → String → WireGuardLink → Type 0
Concerned n k l = (concerns n l ≡ true) × (l.id ≡ k)

abbrev pub Filed : Dict ℕ → String → Type 0
Filed idx k = (i : ℕ) × (lookup k idx ≡ some i)

Filed-cons :
    (n k : String) (l : WireGuardLink) (ls : List WireGuardLink) (idx : Dict ℕ) (i : ℕ)
    → Filed idx k ⊎ Any (Concerned n k) (l ∷ ls)
    → Filed ((l.id, i) ∷ idx) k ⊎ Any (Concerned n k) ls
Filed-cons n k l ls idx i x = elim (==-cases l.id k) [
  | inl (e, t) ↦ inl (i, ground (arith, t))
  | inr (e, t) ↦ elim x [
    | inl (j, f) ↦ inl (j, ground (arith, t))
    | inr (inl (_, same)) ↦ absurd (e same)
    | inr (inr y) ↦ inr y
  ]
]

Filed-skip :
    (n k : String) (l : WireGuardLink) (ls : List WireGuardLink) (idx : Dict ℕ)
    → concerns n l ≡ false
    → Filed idx k ⊎ Any (Concerned n k) (l ∷ ls)
    → Filed idx k ⊎ Any (Concerned n k) ls
Filed-skip n k l ls idx e (inl f) = inl f
Filed-skip n k l ls idx e (inr (inl (c, _))) = absurd (cc (sym c ∙ e))
Filed-skip n k l ls idx e (inr (inr y)) = inr y

pub build_links-Filed :
    (cfg : WireGuardLink → WireGuardLinkCfg) (n k : String) (ls : List WireGuardLink) (idx : Dict ℕ)
    (cfgs : List WireGuardLinkCfg)
    → Filed idx k ⊎ Any (Concerned n k) ls
    → Filed (build_links cfg n ls idx cfgs).0 k
unfolding build_links
build_links-Filed cfg n k [] idx cfgs (inl f) = f
build_links-Filed cfg n k [] idx cfgs (inr x) = absurd x
build_links-Filed cfg n k (l ∷ ls) idx cfgs x = elim (Bool-cases (concerns n l)) [
  | inl e ↦ rw e (
      build_links-Filed cfg n k ls ((l.id, length cfgs) ∷ idx) (cfgs ++ cfg l ∷ [])
        (Filed-cons n k l ls idx (length cfgs) x))
  | inr e ↦ rw e (build_links-Filed cfg n k ls idx cfgs (Filed-skip n k l ls idx e x))
]

pub Offered-Concerned :
    (n peer iface k : String) (ls : List WireGuardLink)
    → Offered ls n peer iface k
    → Any (Concerned n k) ls
unfolding concerns
Offered-Concerned n peer iface k [] o = o
Offered-Concerned n peer iface k (l ∷ ls) (inl (e, (on, f))) =
    inl (ground (arith, eq_iff l.node_a n, eq_iff l.node_b n), e)
Offered-Concerned n peer iface k (l ∷ ls) (inr o) = inr (Offered-Concerned n peer iface k ls o)

defaults-kept :
    (l : WireGuardLink) (c : WireGuardLinkCfg)
    → let d = default_keepalive (default_port l (dial_listener l c)) in
      (d.link_id ≡ c.link_id) × (d.allowed_ips ≡ c.allowed_ips)
unfolding default_keepalive default_port dial_listener
defaults-kept l c = ground arith

with_endpoints-kept :
    (split_host_port : String → Option (String × String)) (parse_ip : String → Option Ip)
    (n : String) (c : WireGuardLinkCfg) (eps : Option (List WireGuardLinkEndpoint))
    → let d = with_endpoints split_host_port parse_ip n c eps in
      (d.link_id ≡ c.link_id) × (d.allowed_ips ≡ c.allowed_ips)
unfolding with_endpoints apply_endpoint
with_endpoints-kept split_host_port parse_ip n c none = (refl, refl)
with_endpoints-kept split_host_port parse_ip n c (some eps) =
    elim (Option-cases (own_endpoint n eps)) [
      | inl e ↦ rw (e, with_endpoints) (refl, refl)
      | inr (ep, e) ↦ rw (e, with_endpoints) (refl, refl)
    ]

module _ (split_host_port : String → Option (String × String)) (parse_ip : String → Option Ip)
    (nodes : List Node) (priv : String) (n : Node) (l : WireGuardLink)
    (eps : Option (List WireGuardLinkEndpoint)) where
  -- The configuration of a link has the link's id, and no AllowedIPs yet.
  pub link_cfg-bare :
      let c = link_cfg split_host_port parse_ip nodes priv n l eps in
      (c.link_id ≡ l.id) × (c.allowed_ips ≡ [])
  unfolding link_cfg base_cfg
  link_cfg-bare =
      let (a, b) =
        defaults-kept l
          (with_endpoints split_host_port parse_ip n.id (base_cfg nodes priv n l) eps) in
      let (x, y) =
        with_endpoints-kept split_host_port parse_ip n.id (base_cfg nodes priv n l) eps in
      (a ∙ x, b ∙ y)
