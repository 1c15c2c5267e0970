-- ===== src/Controller/Policies/Created.antt =====
-- What handleGetPolicy returns after handleCreatePolicy and handleDeletePolicy.
use sd_wan_plus.Base.{
  Bool, ◌&&◌, if◌then◌else◌, append-nil, ◌+◌, ◌≤◌, String, ◌==◌, ==-self, eq_iff, ◌≡◌, ◌≢◌, ◌↔◌,
  ◌⊎◌, refl, ap, ◌∙◌, inl, inr, true, false, Option, none, some, Option-cases, List, [], ◌∷◌, ◌++◌,
  All, Distinct, length, map, arith,
}
use sd_wan_plus.Core.Records.{
  TrafficPolicy, TrafficPolicyMatch, TrafficPolicyConfig, TrafficPolicyPathHop,
}
use sd_wan_plus.Topology.Path.{validate_path, validate_path-none_iff, IsChain}
use mathlib.Core.Option
use sd_wan_plus.Storage.Tables.{has_node, where_rows, first_row}
use sd_wan_plus.Storage.Rows.{
  first_row-none, first_row-append, where_rows-append, where_rows-none, first_row-delete_same,
  first_row-delete_other, where_rows-delete_same, where_rows-delete_other,
}
use sd_wan_plus.Storage.Policies.{
  PolicyTables, refers, new_policy, create_policy, get_policy, delete_policy, save_policy_match,
  save_policy_config, list_policy_hops, list_policy_matches, get_policy_config,
}
use sd_wan_plus.Storage.Links.{list_links}
use sd_wan_plus.Controller.State.{Server, Call, Accepted, ok, audit}
use sd_wan_plus.Controller.Policies.{
  PolicyBody, PolicyView, egress_of, policy_of, match_of, config_of, save_hops, save_policy,
  accept_policy, handle_create_policy, handle_get_policy, handle_delete_policy,
}
use sd_wan_plus.Controller.Policies.Saved.{rows, save_hops-rows, map-rows, list_policy_hops-saved}

-- No row of the four tables has the id of the policy.
pub record IsFresh (id : String) (t : PolicyTables) : Type 0 where
  pub policies : All (λ p. (p.id == id) ≡ false) t.policies
  pub matches : All (λ m. (m.policy_id == id) ≡ false) t.matches
  pub hops : All (λ h. (h.policy_id == id) ≡ false) t.hops
  pub configs : All (λ c. (c.policy_id == id) ≡ false) t.configs

-- The body can be accepted: it has a name, and its hops are a path.
abbrev pub Acceptable : PolicyBody → Server → Type 0
Acceptable b s =
    (b.name ≢ "") × (2 ≤ length b.hops) × Distinct b.hops × IsChain (list_links s.db) b.hops

-- handleCreatePolicy accepts a body exactly when it has a name, at least two hops, no hop twice, and
-- an enabled link between every two neighbours; a body that it refuses changes nothing.
pub handle_create_policy-ok_iff :
    (c : Call) (b : PolicyBody) (s : Server)
    → (Accepted (handle_create_policy c (some b) s).0 ↔ Acceptable b s)
      × (Accepted (handle_create_policy c (some b) s).0
          ⊎ ((handle_create_policy c (some b) s).1 ≡ s))
unfolding handle_create_policy accept_policy
handle_create_policy-ok_iff c b s = elim (Option-cases (validate_path (list_links s.db) b.hops)) [
  | inl e ↦ ground (arith, validate_path-none_iff (list_links s.db) b.hops, eq_iff b.name "")
  | inr (x, e) ↦ ground (arith, validate_path-none_iff (list_links s.db) b.hops, eq_iff b.name "")
]

-- The rows that a statement inserts, which its foreign keys may refuse.
row_if : {A : Type 0} → Bool → A → List A
row_if true x = x ∷ []
row_if false x = []

append-row_if :
    {A B : Type 0} (f : List A → B) (ok : Bool) (xs : List A) (x : A)
    → (if ok then f (xs ++ x ∷ []) else f xs) ≡ f (xs ++ row_if ok x)
unfolding row_if
append-row_if f true xs x = refl
append-row_if f false xs x = rw append-nil refl

-- The nodes that the match, or the configuration, names are there.
abbrev pub match_known : (String → Bool) → PolicyBody → Bool
match_known known b = refers known b.source_node_id && refers known b.destination_node_id

abbrev pub config_known : (String → Bool) → PolicyBody → Bool
config_known known b = refers known (egress_of b.egress_node_id b.hops)

module _ (known : String → Bool) (c : Call) (b : PolicyBody) (t : PolicyTables) where
  abbrev id : String
  id = c.uuid 0

  abbrev new_match : TrafficPolicyMatch
  new_match = record (match_of id b) { id = c.uuid 1 }

  abbrev new_config : TrafficPolicyConfig
  new_config = record (config_of id b) { id = c.uuid 2 }

  -- The tables that `save_policy` leaves, written out.
  saved : PolicyTables
  saved = record {
    policies = t.policies ++ new_policy id c.now (policy_of b) ∷ [];
    matches = t.matches ++ row_if (match_known known b) new_match;
    hops = t.hops ++ rows (λ i. c.uuid (4 + i)) id 0 b.hops;
    configs = t.configs ++ row_if (config_known known b) new_config;
  }

  save_policy-saved : All (λ h. known h ≡ true) b.hops → save_policy known c b t ≡ saved
  unfolding save_policy saved new_policy policy_of match_of config_of create_policy
      save_policy_match save_policy_config
  save_policy-saved k =
      let u = create_policy t (new_policy id c.now (policy_of b)) in
      ap (λ v. save_policy_config known v (c.uuid 2) (config_of id b))
        (ap (save_hops known (λ i. c.uuid (4 + i)) id 0 b.hops) (
            append-row_if (λ ms. record u { matches = ms }) (match_known known b) t.matches
              new_match)
          ∙ save_hops-rows (λ i. c.uuid (4 + i)) id known 0 b.hops
              (record u { matches = t.matches ++ row_if (match_known known b) new_match }) k)
      ∙ append-row_if
          (λ ks. record u {
            matches = t.matches ++ row_if (match_known known b) new_match;
            hops = t.hops ++ rows (λ i. c.uuid (4 + i)) id 0 b.hops;
            configs = ks;
          })
          (config_known known b) t.configs new_config

-- What is kept of the body: the match, and the configuration, only if the nodes that it names are
-- there.
abbrev pub Keeps : (String → Bool) → PolicyBody → PolicyView → Type 0
Keeps known b v =
    (v.policy.name ≡ b.name)
    × (map (λ h. h.node_id) v.hops ≡ b.hops)
    × (map (λ m. m.destination_cidr) v.matches
        ≡ (if match_known known b then b.destination_cidr ∷ [] else []))
    × (Option.map {B = Option String × Bool} (λ k. (k.egress_node_id, k.egress_nat)) v.config ≡ (
        if config_known known b
        then some (egress_of b.egress_node_id b.hops, b.egress_nat)
        else none))

module _ (known : String → Bool) (c : Call) (b : PolicyBody) (t : PolicyTables)
    (fresh : IsFresh (c.uuid 0) t) where
  abbrev policy_id : String
  policy_id = c.uuid 0

  get_policy-saved :
      get_policy (saved known c b t) policy_id ≡ some (new_policy policy_id c.now (policy_of b))
  unfolding get_policy saved new_policy policy_of
  get_policy-saved =
      first_row-append (λ p. p.id == policy_id) t.policies
        (new_policy policy_id c.now (policy_of b)) fresh.policies (==-self policy_id)

  get_policy_config-saved :
      get_policy_config (saved known c b t) policy_id
      ≡ (if config_known known b then some (new_config known c b t) else none)
  unfolding get_policy_config saved config_of row_if
  get_policy_config-saved = found (config_known known b)
    where
      found :
          (ok : Bool)
          → first_row
              (λ k. k.policy_id == policy_id)
              (t.configs ++ row_if ok (new_config known c b t))
            ≡ (if ok then some (new_config known c b t) else none)
      found true =
          first_row-append (λ k. k.policy_id == policy_id) t.configs (new_config known c b t)
            fresh.configs (==-self policy_id)
      found false =
          rw append-nil (first_row-none (λ k. k.policy_id == policy_id) t.configs fresh.configs)

  list_policy_matches-saved :
      list_policy_matches (saved known c b t) policy_id
      ≡ row_if (match_known known b) (new_match known c b t)
  unfolding list_policy_matches saved match_of row_if
  list_policy_matches-saved =
      rw
        (
          where_rows-append (λ m. m.policy_id == policy_id) t.matches
              (row_if (match_known known b) (new_match known c b t)),
          where_rows-none (λ m. m.policy_id == policy_id) t.matches fresh.matches,
        )
        (own (match_known known b))
    where
      own :
          (ok : Bool)
          → where_rows (λ m. m.policy_id == policy_id) (row_if ok (new_match known c b t))
            ≡ row_if ok (new_match known c b t)
      own true = rw (==-self policy_id) refl
      own false = refl

  list_policy_hops-kept :
      list_policy_hops (saved known c b t) policy_id ≡ rows (λ i. c.uuid (4 + i)) policy_id 0 b.hops
  unfolding list_policy_hops saved
  list_policy_hops-kept = list_policy_hops-saved (λ i. c.uuid (4 + i)) policy_id t b.hops fresh.hops

  abbrev kept : PolicyView
  kept = record {
    policy = new_policy policy_id c.now (policy_of b);
    hops = rows (λ i. c.uuid (4 + i)) policy_id 0 b.hops;
    matches = row_if (match_known known b) (new_match known c b t);
    config = if config_known known b then some (new_config known c b t) else none;
  }

  handle_get_policy-saved :
      (s : Server) → s.policies ≡ saved known c b t → handle_get_policy policy_id s ≡ ok kept
  unfolding handle_get_policy
  handle_get_policy-saved s e =
      rw
        (
          e, get_policy-saved, handle_get_policy, e, get_policy_config-saved,
          list_policy_matches-saved, list_policy_hops-kept,
        )
        refl

  kept-Keeps : Keeps known b kept
  unfolding new_policy policy_of match_of config_of row_if
  kept-Keeps = (
    refl,
    map-rows (λ i. c.uuid (4 + i)) policy_id 0 b.hops,
    matches (match_known known b),
    configs (config_known known b),
  )
    where
      matches :
          (ok : Bool)
          → map (λ m. m.destination_cidr) (row_if ok (new_match known c b t))
            ≡ (if ok then b.destination_cidr ∷ [] else [])
      matches true = refl
      matches false = refl

      configs :
          (ok : Bool)
          → Option.map {B = Option String × Bool}
              (λ k. (k.egress_node_id, k.egress_nat))
              (if ok then some (new_config known c b t) else none)
            ≡ (if ok then some (egress_of b.egress_node_id b.hops, b.egress_nat) else none)
      configs true = refl
      configs false = refl

accepted :
    (c : Call) (b : PolicyBody) (s : Server)
    → Accepted (handle_create_policy c (some b) s).0
    → (handle_create_policy c (some b) s).1.policies ≡ save_policy (has_node s.db) c b s.policies
unfolding handle_create_policy accept_policy audit
accepted c b s h = elim (Option-cases (validate_path (list_links s.db) b.hops)) [
  | inl e ↦ ground arith
  | inr (x, e) ↦ ground arith
]

-- After handleCreatePolicy has accepted a body whose hops are nodes, under an id that no row has,
-- handleGetPolicy returns the policy with that name and the hops of the body in their order. It
-- returns one match with the destination of the body if the source and destination nodes of the
-- match are there, and none otherwise; and a configuration whose egress is the one given or else the
-- last hop if that node is there, and none otherwise.
pub handle_get_policy-created :
    (c : Call) (b : PolicyBody) (s : Server)
    → IsFresh (c.uuid 0) s.policies
    → All (λ h. has_node s.db h ≡ true) b.hops
    → Accepted (handle_create_policy c (some b) s).0
    → (v : PolicyView) × (handle_get_policy (c.uuid 0) (handle_create_policy c (some b) s).1 ≡ ok v)
      × Keeps (has_node s.db) b v
handle_get_policy-created c b s f k h = (
  kept (has_node s.db) c b s.policies f,
  handle_get_policy-saved (has_node s.db) c b s.policies f (handle_create_policy c (some b) s).1
      (accepted c b s h ∙ save_policy-saved (has_node s.db) c b s.policies k),
  kept-Keeps (has_node s.db) c b s.policies f,
)

-- What the statements find of a policy.
abbrev pub seen :
    PolicyTables
    → String
    → Option TrafficPolicy
      × List TrafficPolicyPathHop
      × List TrafficPolicyMatch
      × Option TrafficPolicyConfig
seen t id =
    (get_policy t id, list_policy_hops t id, list_policy_matches t id, get_policy_config t id)

-- handleDeletePolicy leaves no row of the policy in any of the four tables, and what the statements
-- find of any other policy is as before.
pub handle_delete_policy-seen :
    (id other : String) (s : Server)
    → other ≢ id
    → (seen (handle_delete_policy id s).policies id ≡ (none, [], [], none))
      × (seen (handle_delete_policy id s).policies other ≡ seen s.policies other)
unfolding handle_delete_policy delete_policy get_policy list_policy_hops list_policy_matches
    get_policy_config
handle_delete_policy-seen id other s ne = (
  rw
      (
        first_row-delete_same (λ p. p.id == id) s.policies.policies,
        where_rows-delete_same (λ h. h.policy_id == id) s.policies.hops,
        where_rows-delete_same (λ m. m.policy_id == id) s.policies.matches,
        first_row-delete_same (λ k. k.policy_id == id) s.policies.configs,
      )
      refl,
  rw
      (
        first_row-delete_other (λ p. p.id == id) (λ p. p.id == other) (λ p. clash p.id)
            s.policies.policies,
        where_rows-delete_other (λ h. h.policy_id == id) (λ h. h.policy_id == other)
            (λ h. clash h.policy_id) s.policies.hops,
        where_rows-delete_other (λ m. m.policy_id == id) (λ m. m.policy_id == other)
            (λ m. clash m.policy_id) s.policies.matches,
        first_row-delete_other (λ k. k.policy_id == id) (λ k. k.policy_id == other)
            (λ k. clash k.policy_id) s.policies.configs,
      )
      refl,
)
  where
    clash : (x : String) → (x == other) ≡ true → (x == id) ≡ false
    clash x e = ground (arith, eq_iff x other, eq_iff x id)
