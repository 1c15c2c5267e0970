-- ===== src/Routing/Compile.antt =====
-- internal/routing/compile.go: `Compile` for one node, and for all.
use sd_wan_plus.Base.{
  ℕ, zero, suc, String, ◌==◌, Bool, true, false, ◌||◌, Option, some, none, List, [], ◌∷◌, ◌++◌,
  if◌then◌else◌, eqb, str_append, trim_space, contains_char, sort_strings, contains, map, length,
  Dict, lookup,
}
use sd_wan_plus.Core.Types.{Node, WireGuardLink, WireGuardLinkEndpoint}
use sd_wan_plus.Topology.Tree.{NextHopResult, control_next_hop}
use sd_wan_plus.Netutil.{Ip}
use sd_wan_plus.Routing.Types.{WireGuardLinkCfg, RouteCfg, RouteTableCfg, NodeDesiredState, seal}
use sd_wan_plus.Routing.Links.{concerns, link_cfg}

-- "/" is the character 47.
unfoldable pub ensure_host_cidr : String → String
ensure_host_cidr ip =
    let t = trim_space ip in
    if t == "" then "" else if contains_char 47 t then t else str_append t "/32"

unfoldable pub append_unique_cidr : List String → String → List String
append_unique_cidr list cidr =
    if cidr == "" then list else if contains list cidr then list else list ++ cidr ∷ []

abbrev pub host_route : String → String → RouteCfg
host_route dest iface = record { destination = dest; via = ""; dev = iface; metric = 0 }

unfoldable pub has_destination : List RouteCfg → String → Bool
has_destination [] dest = false
has_destination (r ∷ rs) dest = let rest = has_destination rs dest in r.destination == dest || rest

-- The main table has the id 0.
unfoldable pub append_overlay_route : List RouteTableCfg → String → String → List RouteTableCfg
append_overlay_route [] dest iface =
    record { table_id = 0; routes = host_route dest iface ∷ [] } ∷ []
append_overlay_route (t ∷ ts) dest iface =
    let rest = append_overlay_route ts dest iface in
    if eqb t.table_id 0
    then if has_destination t.routes dest
      then t ∷ ts
      else record t { routes = t.routes ++ host_route dest iface ∷ [] } ∷ ts
    else t ∷ rest

-- list[i].AllowedIPs = appendUniqueCIDR(list[i].AllowedIPs, cidr)
unfoldable pub allow_at : List WireGuardLinkCfg → ℕ → String → List WireGuardLinkCfg
allow_at [] i cidr = []
allow_at (c ∷ cs) zero cidr = record c { allowed_ips = append_unique_cidr c.allowed_ips cidr } ∷ cs
allow_at (c ∷ cs) (suc i) cidr = c ∷ allow_at cs i cidr

-- What the loops of a node build: `st.WireGuardLinks` and `st.RouteTables`.
pub record Overlay : Type 0 where
  pub cfgs : List WireGuardLinkCfg
  pub tables : List RouteTableCfg

-- The loop over the links: `linkIdx` and `st.WireGuardLinks`, `cfg` being the body's result.
unfoldable pub build_links :
    (cfg : WireGuardLink → WireGuardLinkCfg)
    → String
    → List WireGuardLink
    → Dict ℕ
    → List WireGuardLinkCfg
    → Dict ℕ × List WireGuardLinkCfg
build_links cfg n [] idx cfgs = (idx, cfgs)
build_links cfg n (l ∷ ls) idx cfgs =
    let skip = build_links cfg n ls idx cfgs in
    let take_over = build_links cfg n ls ((l.id, length cfgs) ∷ idx) (cfgs ++ cfg l ∷ []) in
    if concerns n l then take_over else skip

module _ (nodes : List Node) (links : List WireGuardLink) (idx : Dict ℕ) (n : Node) where
  -- `m` is reached over the link at `i`.
  unfoldable pub add_reach : Node → NextHopResult → Overlay → ℕ → Overlay
  add_reach m hop st i = record {
    cfgs = allow_at st.cfgs i (ensure_host_cidr m.overlay_ipv4);
    tables = append_overlay_route st.tables (ensure_host_cidr m.overlay_ipv4) hop.iface;
  }

  unfoldable pub over_link : Node → Overlay → NextHopResult → Overlay
  over_link m st hop = elim (lookup hop.link_id idx) [ none ↦ st | some i ↦ add_reach m hop st i ]

  unfoldable pub reach : Overlay → Node → Overlay
  reach st m =
      if m.id == n.id || m.overlay_ipv4 == ""
      then st
      else elim (control_next_hop nodes links n.id m.id) [
        | none ↦ st
        | some hop ↦ over_link m st hop
      ]

  -- The loop over the nodes.
  unfoldable pub reach_all : Overlay → List Node → Overlay
  reach_all st [] = st
  reach_all st (m ∷ ms) = reach_all (reach st m) ms

unfoldable pub sort_allowed : WireGuardLinkCfg → WireGuardLinkCfg
sort_allowed c = record c { allowed_ips = sort_strings c.allowed_ips }

unfoldable pub text_or : Option String → String
text_or none = ""
text_or (some s) = s

module _ (split_host_port : String → Option (String × String)) (parse_ip : String → Option Ip)
    (sha256_of_json : NodeDesiredState → Option String) (decrypt : String → Option String)
    (list_link_endpoints : String → Option (List WireGuardLinkEndpoint)) (nodes : List Node)
    (links : List WireGuardLink) (generation : ℕ) where
  -- What the loop over the links builds for `n`.
  unfoldable pub node_links : Node → Dict ℕ × List WireGuardLinkCfg
  node_links n =
      build_links
        (λ l.
          link_cfg split_host_port parse_ip nodes (text_or (decrypt n.wg_private_key_encrypted)) n l
            (list_link_endpoints l.id))
        n.id links [] []

  -- What both loops build.
  unfoldable pub node_overlay : Node → Overlay
  node_overlay n =
      reach_all nodes links (node_links n).0 n (record { cfgs = (node_links n).1; tables = [] })
        nodes

  unfoldable pub node_state : Node → NodeDesiredState
  node_state n = record {
    generation = generation;
    node_id = n.id;
    overlay_identity = record {
      ipv4 = n.overlay_ipv4;
      ipv6 = n.overlay_ipv6;
      dummy_interface = "pw-lo";
    };
    wireguard_links = map sort_allowed (node_overlay n).cfgs;
    listen_ports = [];
    peers = [];
    nftables_rules = [];
    policy_rules = [];
    route_tables = (node_overlay n).tables;
    forwarding_settings = record { ipv4_forwarding = true; ipv6_forwarding = false };
    nat_rules = [];
    control_parent_id = text_or n.control_parent_id;
    recovery_endpoint = "";
    config_hash = "";
  }

  -- The loop of `Compile`; `out` is the map from node ids.
  unfoldable pub compile_from : Dict NodeDesiredState → List Node → Option (Dict NodeDesiredState)
  compile_from out [] = some out
  compile_from out (n ∷ ns) = elim (seal sha256_of_json (node_state n)) [
    | none ↦ none
    | some st ↦ compile_from ((n.id, st) ∷ out) ns
  ]

  unfoldable pub compile : Option (Dict NodeDesiredState)
  compile = compile_from [] nodes
