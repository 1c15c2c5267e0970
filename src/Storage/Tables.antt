-- ===== src/Storage/Tables.antt =====
-- internal/storage/nodes.go and links.go: the tables, and the statements that read or change rows.
use sd_wan_plus.Base.{
  ℕ, String, ◌==◌, Bool, true, false, not, ◌&&◌, eqb, ltb, leb, order_by, Option, some, none, List,
  [], ◌∷◌, ◌++◌, if◌then◌else◌, map,
}
use sd_wan_plus.Core.Types.{
  Node, NodeAddress, ControlRelation, WireGuardLink, WireGuardLinkEndpoint, EnrollmentToken,
}

pub record Db : Type 0 where
  pub nodes : List Node
  pub node_addresses : List NodeAddress
  pub control_relations : List ControlRelation
  pub links : List WireGuardLink
  pub link_endpoints : List WireGuardLinkEndpoint
  pub enrollment_tokens : List EnrollmentToken

-- SELECT … WHERE: the rows that satisfy the test.
abbrev pub where_rows {ℓ} : {A : Type ℓ} → (A → Bool) → List A → List A
where_rows p [] = []
where_rows p (x ∷ xs) = let rest = where_rows p xs in if p x then x ∷ rest else rest

-- DELETE … WHERE
abbrev pub delete_rows {ℓ} : {A : Type ℓ} → (A → Bool) → List A → List A
delete_rows p = where_rows (λ x. not (p x))

-- The first row that satisfies the test, none for sql.ErrNoRows.
abbrev pub first_row {ℓ} : {A : Type ℓ} → (A → Bool) → List A → Option A
first_row p [] = none
first_row p (x ∷ xs) = let rest = first_row p xs in if p x then some x else rest

unfoldable pub get_node : Db → String → Option Node
get_node db id = first_row (λ n. n.id == id) db.nodes

-- A foreign key on nodes(id): an INSERT that names no node is refused.
unfoldable pub has_node : Db → String → Bool
has_node db id = elim (get_node db id) [ none ↦ false | some n ↦ true ]

unfoldable pub list_nodes : Db → List Node
list_nodes db = db.nodes

unfoldable pub list_control_relations : Db → List ControlRelation
list_control_relations db = db.control_relations

unfoldable pub get_controller_node : Db → Option Node
get_controller_node db = first_row (λ n. n.is_controller) db.nodes

-- `id` is what uuid.NewString returns.
unfoldable pub create_node : Db → (id : String) → (now : ℕ) → Node → Db
create_node db id now n = record db {
  nodes =
      db.nodes
      ++ record n { id = if n.id == "" then id else n.id; created_at = now; updated_at = now } ∷ [];
}

-- UPDATE … WHERE id
unfoldable pub update_node : Db → String → (Node → Node) → Db
update_node db id f = record db { nodes = map (λ n. if n.id == id then f n else n) db.nodes }

unfoldable pub rename_node : Db → (now : ℕ) → String → String → Db
rename_node db now id name =
    update_node db id (λ n. record n { display_name = name; updated_at = now })

unfoldable pub update_node_ports : Db → (now : ℕ) → String → ℕ → ℕ → ℕ → Db
update_node_ports db now id service_port wg_start wg_end = update_node db id (λ n. record n {
  node_service_port = service_port;
  wg_port_range_start = wg_start;
  wg_port_range_end = wg_end;
  updated_at = now;
})

unfoldable pub touch_node_seen : Db → (now : ℕ) → String → String → Option ℕ → Db
touch_node_seen db now id agent_version active_gen = update_node db id (λ n. record n {
  last_seen_at = some now;
  agent_version = agent_version;
  active_generation = active_gen;
  updated_at = now;
})

unfoldable pub children_of : Db → String → List Node
children_of db parent =
    where_rows (λ n. elim n.control_parent_id [ none ↦ false | some p ↦ p == parent ]) db.nodes

unfoldable pub address_rank : NodeAddress → ℕ
address_rank a = if a.address_type == "public" then 0 else if a.address_type == "lan" then 1 else 2

-- ORDER BY is_primary DESC, the rank of the type, created_at
unfoldable pub address_before : NodeAddress → NodeAddress → Bool
address_before a b =
    if a.is_primary && not b.is_primary
    then true
    else if b.is_primary && not a.is_primary
    then false
    else if eqb (address_rank a) (address_rank b)
    then leb a.created_at b.created_at
    else ltb (address_rank a) (address_rank b)

unfoldable pub list_node_addresses : Db → String → List NodeAddress
list_node_addresses db node =
    order_by address_before (where_rows (λ a. a.node_id == node) db.node_addresses)

-- `id` is what uuid.NewString returns; an address of a node that is not there is not inserted.
unfoldable pub add_node_address :
    Db → (id : String) → (now : ℕ) → String → String → String → Bool → Db
add_node_address db id now node address address_type primary =
    if has_node db node
    then record db {
      node_addresses =
          db.node_addresses
          ++ record {
            id = id;
            node_id = node;
            address = address;
            address_type = address_type;
            is_primary = primary;
            created_at = now;
          }
            ∷ [];
    }
    else db

unfoldable pub create_control_relation :
    Db → (id : String) → (now : ℕ) → String → String → String → Db
create_control_relation db id now parent child token = record db {
  control_relations =
      db.control_relations
      ++ record {
        id = id;
        parent_id = parent;
        child_id = child;
        enrolled_at = now;
        enrollment_token_id = token;
      }
        ∷ [];
}
