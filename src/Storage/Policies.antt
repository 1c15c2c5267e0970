-- ===== src/Storage/Policies.antt =====
-- internal/storage/policies.go: traffic policies, with their matches, hops and configurations. The
-- four tables are a record of their own; of the nodes, the foreign keys see which ids are `known`, and
-- a row that names another node is not inserted.
use sd_wan_plus.Base.{
  Bool, true, ◌&&◌, some, none, map, ℕ, String, ◌==◌, Option, List, [], ◌∷◌, ◌++◌, if◌then◌else◌,
  leb, order_by,
}
use sd_wan_plus.Core.Records.{
  TrafficPolicy, TrafficPolicyMatch, TrafficPolicyPathHop, TrafficPolicyConfig,
}
use sd_wan_plus.Storage.Tables.{where_rows, delete_rows, first_row}

pub record PolicyTables : Type 0 where
  pub policies : List TrafficPolicy
  pub matches : List TrafficPolicyMatch
  pub hops : List TrafficPolicyPathHop
  pub configs : List TrafficPolicyConfig

abbrev pub new_id : String → String → String
new_id given fresh = if given == "" then fresh else given

-- `id` is what uuid.NewString returns; the row that is inserted is `p` afterwards.
unfoldable pub new_policy : (id : String) → (now : ℕ) → TrafficPolicy → TrafficPolicy
new_policy id now p = record p { id = new_id p.id id; created_at = now; updated_at = now }

unfoldable pub create_policy : PolicyTables → TrafficPolicy → PolicyTables
create_policy t p = record t { policies = t.policies ++ p ∷ [] }

-- ORDER BY priority; rows of one priority keep the order of insertion.
unfoldable pub list_policies : PolicyTables → List TrafficPolicy
list_policies t = order_by (λ p q. leb p.priority q.priority) t.policies

unfoldable pub get_policy : PolicyTables → String → Option TrafficPolicy
get_policy t id = first_row (λ p. p.id == id) t.policies

-- The four DELETE statements of one transaction.
unfoldable pub delete_policy : PolicyTables → String → PolicyTables
delete_policy t id = record {
  matches = delete_rows (λ m. m.policy_id == id) t.matches;
  hops = delete_rows (λ h. h.policy_id == id) t.hops;
  configs = delete_rows (λ c. c.policy_id == id) t.configs;
  policies = delete_rows (λ p. p.id == id) t.policies;
}

-- A foreign key that may be NULL.
abbrev pub refers : (known : String → Bool) → Option String → Bool
refers known none = true
refers known (some id) = known id

module _ (known : String → Bool) where
  unfoldable pub save_policy_match :
      PolicyTables → (id : String) → TrafficPolicyMatch → PolicyTables
  save_policy_match t id m =
      if refers known m.source_node_id && refers known m.destination_node_id
      then record t { matches = t.matches ++ record m { id = new_id m.id id } ∷ [] }
      else t

  unfoldable pub save_policy_hop :
      PolicyTables → (id : String) → TrafficPolicyPathHop → PolicyTables
  save_policy_hop t id h =
      if known h.node_id
      then record t { hops = t.hops ++ record h { id = new_id h.id id } ∷ [] }
      else t

  unfoldable pub save_policy_config :
      PolicyTables → (id : String) → TrafficPolicyConfig → PolicyTables
  save_policy_config t id c =
      if refers known c.egress_node_id
      then record t { configs = t.configs ++ record c { id = new_id c.id id } ∷ [] }
      else t

abbrev pub unless_id : String → Option String → Option String
unless_id id none = none
unless_id id (some n) = if n == id then none else some n

unfoldable pub forget_in_match : String → TrafficPolicyMatch → TrafficPolicyMatch
forget_in_match id m = record m {
  source_node_id = unless_id id m.source_node_id;
  destination_node_id = unless_id id m.destination_node_id;
}

unfoldable pub forget_in_config : String → TrafficPolicyConfig → TrafficPolicyConfig
forget_in_config id c = record c { egress_node_id = unless_id id c.egress_node_id }

-- The statements of DeleteNode on these tables.
unfoldable pub forget_node : PolicyTables → String → PolicyTables
forget_node t id = record t {
  hops = delete_rows (λ h. h.node_id == id) t.hops;
  matches = map (forget_in_match id) t.matches;
  configs = map (forget_in_config id) t.configs;
}

-- ORDER BY hop_order
unfoldable pub list_policy_hops : PolicyTables → String → List TrafficPolicyPathHop
list_policy_hops t id =
    order_by (λ g h. leb g.hop_order h.hop_order) (where_rows (λ h. h.policy_id == id) t.hops)

unfoldable pub list_policy_matches : PolicyTables → String → List TrafficPolicyMatch
list_policy_matches t id = where_rows (λ m. m.policy_id == id) t.matches

unfoldable pub get_policy_config : PolicyTables → String → Option TrafficPolicyConfig
get_policy_config t id = first_row (λ c. c.policy_id == id) t.configs
