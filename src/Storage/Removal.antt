-- ===== src/Storage/Removal.antt =====
-- internal/storage/nodes.go: `NodeDeleteImpact` and `DeleteNode`. Its statements on the tables of
-- policies, updates and publications are `Controller.Nodes.delete_node_rows`.
use sd_wan_plus.Base.{
  ℕ, ltb, String, ◌==◌, Bool, false, not, ◌||◌, Option, some, none, List, [], ◌∷◌, map,
  if◌then◌else◌, length, str_append, decimal,
}
use sd_wan_plus.Core.Types.{Node, WireGuardLink}
use sd_wan_plus.Storage.Tables.{Db, where_rows, delete_rows, get_node, children_of}
use sd_wan_plus.Storage.Links.{delete_link, list_links}

pub record NodeDeleteImpact : Type 0 where
  pub node_id : String
  pub display_name : String
  pub is_controller : Bool
  pub can_delete : Bool
  pub block_reason : String
  pub child_count : ℕ
  pub child_names : List String
  pub link_count : ℕ
  pub link_ids : List String
  pub warning : String

unfoldable pub touches : String → WireGuardLink → Bool
touches id l = l.node_a == id || l.node_b == id

abbrev pub link_ids_of : Db → String → List String
link_ids_of db id = map (λ l. l.id) (where_rows (touches id) (list_links db))

unfoldable pub controller_impact : Node → NodeDeleteImpact
controller_impact n = record {
  node_id = n.id;
  display_name = n.display_name;
  is_controller = n.is_controller;
  can_delete = false;
  block_reason = "控制机不可删除。如需重建，请整机卸载后重装控制机。";
  child_count = 0;
  child_names = [];
  link_count = 0;
  link_ids = [];
  warning = "";
}

unfoldable pub node_impact : Db → Node → String → NodeDeleteImpact
node_impact db n id =
    let children = children_of db id in
    let ids = link_ids_of db id in
    let blocked = ltb 0 (length children) in
    record {
      node_id = n.id;
      display_name = n.display_name;
      is_controller = n.is_controller;
      can_delete = not blocked;
      block_reason =
          if blocked
          then str_append "仍有 " (str_append (decimal (length children)) " 个控制树下级，请先删除或迁移下级节点。")
          else "";
      child_count = length children;
      child_names = map (λ c. c.display_name) children;
      link_count = length ids;
      link_ids = ids;
      warning = str_append "将删除节点「" (
          str_append n.display_name (
            str_append "」及 "
              (str_append (decimal (length ids)) " 条相邻 WireGuard 链路，并自动发布新配置。请随后在该设备上执行卸载。")));
    }

-- `none` for a node that is not there.
unfoldable pub node_delete_impact : Db → String → Option NodeDeleteImpact
node_delete_impact db id = elim (get_node db id) [
  | none ↦ none
  | some n ↦ some (if n.is_controller then controller_impact n else node_impact db n id)
]

pub data Deletion : Type 0 where
  no_row : Deletion
  blocked : String → Deletion
  deleted : Db → Deletion

-- The loop over the links of the node.
unfoldable pub delete_links : Db → List String → Db
delete_links db [] = db
delete_links db (l ∷ ls) = delete_links (delete_link db l) ls

unfoldable pub orphan : String → Node → Node
orphan id n = elim n.control_parent_id [
  | none ↦ n
  | some p ↦ if p == id then record n { control_parent_id = none } else n
]

-- The statements after the links on these tables.
unfoldable pub delete_rest : Db → String → Db
delete_rest db id = record db {
  control_relations = delete_rows (λ r. r.parent_id == id || r.child_id == id) db.control_relations;
  node_addresses = delete_rows (λ a. a.node_id == id) db.node_addresses;
  enrollment_tokens = delete_rows (λ t. t.parent_node_id == id) db.enrollment_tokens;
  nodes = delete_rows (λ n. n.id == id) (map (orphan id) db.nodes);
}

unfoldable pub delete_allowed : Db → String → NodeDeleteImpact → Deletion
delete_allowed db id impact =
    if not impact.can_delete
    then blocked impact.block_reason
    else deleted (delete_rest (delete_links db (link_ids_of db id)) id)

unfoldable pub delete_node : Db → String → Deletion
delete_node db id = elim (node_delete_impact db id) [
  | none ↦ no_row
  | some impact ↦ delete_allowed db id impact
]
