-- ===== src/Controller/Nodes/Removed.antt =====
-- internal/controller/nodes_handlers.go, handleDeleteNode: the state after the deletion of a node.
use sd_wan_plus.Base.{
  String, ◌==◌, ◌≡◌, ◌≢◌, inl, inr, false, ==-cases, Option, some, none, List, [], ◌∷◌, map, All,
  Dict, lookup, refl, Bool-cases,
}
use sd_wan_plus.Core.Types.{Node}
use sd_wan_plus.Core.Records.{TrafficPolicyMatch, TrafficPolicyConfig}
use sd_wan_plus.Storage.Tables.{Db, get_node, children_of}
use sd_wan_plus.Storage.Removal.{delete_node, deleted}
use sd_wan_plus.Storage.Removed.{Gone, All-delete_rows, delete_node-Gone}
use sd_wan_plus.Storage.Policies.{unless_id, forget_in_match, forget_in_config, forget_node}
use sd_wan_plus.Routing.Types.{NodeDesiredState}
use sd_wan_plus.Controller.State.{Server}
use sd_wan_plus.Controller.Nodes.{delete_node_rows, removed, without}

unless_id-other : (id : String) (o : Option String) → unless_id id o ≢ some id
unless_id-other id none = λ x. cc
unless_id-other id (some n) = elim (==-cases n id) [
  | inl (e, t) ↦ rw t (λ x. cc)
  | inr (e, t) ↦ rw t (λ x. e cc)
]

-- No row of the tables of policies, updates and publications refers to the node, and no state is
-- served to it.
pub record Unnamed (s : Server) (id : String) : Type 0 where
  pub targets : All (λ t. (t.node_id == id) ≡ false) s.update_targets
  pub rollouts : All (λ r. (r.node_id == id) ≡ false) s.rollout_nodes
  pub configs : All (λ d. (d.node_id == id) ≡ false) s.desired_configs
  pub hops : All (λ h. (h.node_id == id) ≡ false) s.policies.hops
  pub sources : All (λ m. m.source_node_id ≢ some id) s.policies.matches
  pub destinations : All (λ m. m.destination_node_id ≢ some id) s.policies.matches
  pub egresses : All (λ c. c.egress_node_id ≢ some id) s.policies.configs
  pub served : lookup id s.desired ≡ none

forgotten-sources :
    (id : String) (ms : List TrafficPolicyMatch)
    → All (λ m. m.source_node_id ≢ some id) (map (forget_in_match id) ms)
unfolding forget_in_match
forgotten-sources id [] = tt
forgotten-sources id (m ∷ ms) = (unless_id-other id m.source_node_id, forgotten-sources id ms)

forgotten-destinations :
    (id : String) (ms : List TrafficPolicyMatch)
    → All (λ m. m.destination_node_id ≢ some id) (map (forget_in_match id) ms)
unfolding forget_in_match
forgotten-destinations id [] = tt
forgotten-destinations id (m ∷ ms) =
    (unless_id-other id m.destination_node_id, forgotten-destinations id ms)

forgotten-egresses :
    (id : String) (cs : List TrafficPolicyConfig)
    → All (λ c. c.egress_node_id ≢ some id) (map (forget_in_config id) cs)
unfolding forget_in_config
forgotten-egresses id [] = tt
forgotten-egresses id (c ∷ cs) = (unless_id-other id c.egress_node_id, forgotten-egresses id cs)

lookup-without : (id : String) (d : Dict NodeDesiredState) → lookup id (without id d) ≡ none
unfolding without
lookup-without id [] = refl
lookup-without id ((k, st) ∷ d) = elim (Bool-cases (k == id)) [
  | inl e ↦ rw e (lookup-without id d)
  | inr e ↦ rw (e, e) (lookup-without id d)
]

removed-Unnamed : (id : String) (after : Db) (s : Server) → Unnamed (removed id after s) id
unfolding removed delete_node_rows forget_node
removed-Unnamed id after s = record {
  targets = All-delete_rows (λ t. t.node_id == id) s.update_targets;
  rollouts = All-delete_rows (λ r. r.node_id == id) s.rollout_nodes;
  configs = All-delete_rows (λ d. d.node_id == id) s.desired_configs;
  hops = All-delete_rows (λ h. h.node_id == id) s.policies.hops;
  sources = forgotten-sources id s.policies.matches;
  destinations = forgotten-destinations id s.policies.matches;
  egresses = forgotten-egresses id s.policies.configs;
  served = lookup-without id s.desired;
}

-- A node that handleDeleteNode deletes was there, was not the controller and had no children. In the
-- state that is then published no link ends at the node, no endpoint of its links is left, no node,
-- relation, address or token names it, and neither does an update target, a row of an earlier
-- publication, a hop of a policy, a match or a configuration; and no desired state is served to it.
pub removed-Gone :
    (s : Server) (after : Db) (id : String)
    → delete_node s.db id ≡ deleted after
    → ((n : Node) × (get_node s.db id ≡ some n)
        × (n.is_controller ≡ false)
        × (children_of s.db id ≡ []))
      × Gone s.db (removed id after s).db id
      × Unnamed (removed id after s) id
unfolding removed
removed-Gone s after id h =
    let (found, gone) = delete_node-Gone s.db after id h in
    (found, gone, removed-Unnamed id after s)
