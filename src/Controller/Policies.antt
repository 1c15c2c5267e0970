-- ===== src/Controller/Policies.antt =====
-- internal/controller/policy_handlers.go: the handlers of traffic policies.
pub mod Saved
pub mod Created
use sd_wan_plus.Base.{
  ℕ, suc, ◌+◌, String, ◌==◌, Bool, true, ◌||◌, Option, some, none, List, [], ◌∷◌, if◌then◌else◌,
  ltb, length,
}
use sd_wan_plus.Core.Errors.{AppError}
use sd_wan_plus.Core.Records.{
  TrafficPolicy, TrafficPolicyMatch, TrafficPolicyPathHop, TrafficPolicyConfig,
}
use sd_wan_plus.Topology.Path.{validate_path}
use sd_wan_plus.Storage.Tables.{has_node}
use sd_wan_plus.Storage.Links.{list_links}
use sd_wan_plus.Storage.Policies.{
  PolicyTables, new_policy, create_policy, get_policy, delete_policy, save_policy_match,
  save_policy_hop, save_policy_config, list_policy_hops, list_policy_matches, get_policy_config,
}
use sd_wan_plus.Controller.State.{Server, Call, Reply, ok, refused, audit}

pub record PolicyBody : Type 0 where
  pub name : String
  pub priority : ℕ
  pub description : String
  pub enabled : Option Bool
  pub hops : List String
  pub source_node_id : Option String
  pub source_cidr : Option String
  pub destination_node_id : Option String
  pub destination_cidr : Option String
  pub protocol : String
  pub destination_port_start : Option ℕ
  pub destination_port_end : Option ℕ
  pub egress_nat : Bool
  pub return_path_type : String
  pub egress_node_id : Option String

abbrev pub text_or_default : String → String → String
text_or_default s d = if s == "" then d else s

abbrev pub flag_or_true : Option Bool → Bool
flag_or_true none = true
flag_or_true (some b) = b

-- body.Hops[len(body.Hops)-1], where there is one
abbrev pub last_hop : List String → Option String
last_hop [] = none
last_hop (h ∷ []) = some h
last_hop (h ∷ k ∷ hs) = last_hop (k ∷ hs)

abbrev pub egress_of : Option String → List String → Option String
egress_of none hops = last_hop hops
egress_of (some e) hops = some e

unfoldable pub policy_of : PolicyBody → TrafficPolicy
policy_of b = record {
  id = "";
  name = b.name;
  priority = b.priority;
  enabled = flag_or_true b.enabled;
  description = b.description;
  created_at = 0;
  updated_at = 0;
}

unfoldable pub match_of : String → PolicyBody → TrafficPolicyMatch
match_of policy b = record {
  id = "";
  policy_id = policy;
  source_node_id = b.source_node_id;
  source_node_group = none;
  source_cidr = b.source_cidr;
  destination_node_id = b.destination_node_id;
  destination_cidr = b.destination_cidr;
  protocol = text_or_default b.protocol "Any";
  destination_port_start = b.destination_port_start;
  destination_port_end = b.destination_port_end;
}

unfoldable pub config_of : String → PolicyBody → TrafficPolicyConfig
config_of policy b = record {
  id = "";
  policy_id = policy;
  egress_node_id = egress_of b.egress_node_id b.hops;
  egress_nat = b.egress_nat;
  return_path_type = text_or_default b.return_path_type "Symmetric";
  failover_enabled = Bool.false;
  failover_path_id = none;
}

abbrev pub hop_of : String → ℕ → String → TrafficPolicyPathHop
hop_of policy i node = record { id = ""; policy_id = policy; hop_order = i; node_id = node }

-- The loop over body.Hops from the index `i`; the row's id is the `i`-th of `ids`.
unfoldable pub save_hops :
    (known : String → Bool)
    → (ids : ℕ → String) → String
    → ℕ
    → List String
    → PolicyTables
    → PolicyTables
save_hops known ids policy i [] t = t
save_hops known ids policy i (h ∷ hs) t =
    save_hops known ids policy (suc i) hs (save_policy_hop known t (ids i) (hop_of policy i h))

-- The rows of an accepted policy: policy, match, hops and configuration, in the order of the code.
-- The errors of all but the first are ignored.
unfoldable pub save_policy :
    (known : String → Bool) → Call → PolicyBody → PolicyTables → PolicyTables
save_policy known c b t =
    let p = new_policy (c.uuid 0) c.now (policy_of b) in
    let with_match = save_policy_match known (create_policy t p) (c.uuid 1) (match_of p.id b) in
    let with_hops = save_hops known (λ i. c.uuid (4 + i)) p.id 0 b.hops with_match in
    save_policy_config known with_hops (c.uuid 2) (config_of p.id b)

unfoldable pub accept_policy : Call → PolicyBody → Server → Reply TrafficPolicy × Server
accept_policy c b s =
    let p = new_policy (c.uuid 0) c.now (policy_of b) in
    (
      ok p,
      audit c (c.uuid 3) "create_policy" "policy" p.id p.name
          (record s { policies = save_policy (has_node s.db) c b s.policies }),
    )

-- `none` for a body that cannot be read.
unfoldable pub handle_create_policy :
    Call → Option PolicyBody → Server → Reply TrafficPolicy × Server
handle_create_policy c none s = (refused 400 "name and hops (>=2) required", s)
handle_create_policy c (some b) s =
    if b.name == "" || ltb (length b.hops) 2
    then (refused 400 "name and hops (>=2) required", s)
    else elim (validate_path (list_links s.db) b.hops) [
      | some e ↦ (refused 400 e.message, s)
      | none ↦ accept_policy c b s
    ]

-- The reply of handleGetPolicy.
pub record PolicyView : Type 0 where
  pub policy : TrafficPolicy
  pub hops : List TrafficPolicyPathHop
  pub matches : List TrafficPolicyMatch
  pub config : Option TrafficPolicyConfig

unfoldable pub handle_get_policy : String → Server → Reply PolicyView
handle_get_policy id s = elim (get_policy s.policies id) [
  | none ↦ refused 404 "not found"
  | some p ↦ ok (record {
    policy = p;
    hops = list_policy_hops s.policies id;
    matches = list_policy_matches s.policies id;
    config = get_policy_config s.policies id;
  })
]

unfoldable pub handle_delete_policy : String → Server → Server
handle_delete_policy id s = record s { policies = delete_policy s.policies id }
