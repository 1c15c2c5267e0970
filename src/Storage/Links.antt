-- ===== src/Storage/Links.antt =====
-- internal/storage/links.go: the links and their endpoints.
use sd_wan_plus.Base.{
  ℕ, String, ◌==◌, eq_iff, ◌≡◌, ◌≢◌, ◌↔◌, ◌⊎◌, Bool, true, false, ◌&&◌, ◌||◌, Option, List, [], ◌∷◌,
  ◌++◌, if◌then◌else◌, map, arith,
}
use sd_wan_plus.Core.Types.{WireGuardLink, WireGuardLinkEndpoint, active, disabled}
use sd_wan_plus.Topology.Links.{Linked, has_direct_link, joins}
use sd_wan_plus.Storage.Tables.{has_node, Db, where_rows, delete_rows, first_row}

-- The foreign keys of a link.
unfoldable pub known_ends : Db → WireGuardLink → Bool
known_ends db l =
    has_node db l.node_a
    && has_node db l.node_b
    && has_node db l.initiator_node_id
    && has_node db l.listener_node_id

-- `id` is what uuid.NewString returns; a link that names a node that is not there is not inserted.
unfoldable pub create_link : Db → (id : String) → (now : ℕ) → WireGuardLink → Db
create_link db id now l =
    if known_ends db l
    then record db {
      links = db.links ++ record l { id = if l.id == "" then id else l.id; created_at = now } ∷ [];
    }
    else db

unfoldable pub create_link_endpoint : Db → (id : String) → WireGuardLinkEndpoint → Db
create_link_endpoint db id e = record db {
  link_endpoints = db.link_endpoints ++ record e { id = if e.id == "" then id else e.id } ∷ [];
}

unfoldable pub list_links : Db → List WireGuardLink
list_links db = db.links

unfoldable pub get_link : Db → String → Option WireGuardLink
get_link db id = first_row (λ l. l.id == id) db.links

unfoldable pub list_link_endpoints : Db → String → List WireGuardLinkEndpoint
list_link_endpoints db id = where_rows (λ e. e.link_id == id) db.link_endpoints

unfoldable pub update_link : Db → String → (WireGuardLink → WireGuardLink) → Db
update_link db id f = record db { links = map (λ l. if l.id == id then f l else l) db.links }

unfoldable pub set_link_bidirectional : Db → String → Bool → Db
set_link_bidirectional db id b = update_link db id (λ l. record l { bidirectional = b })

unfoldable pub set_link_enabled : Db → String → Bool → Db
set_link_enabled db id on =
    update_link db id (λ l. record l { enabled = on; status = if on then active else disabled })

unfoldable pub delete_link : Db → String → Db
delete_link db id = record db {
  link_endpoints = delete_rows (λ e. e.link_id == id) db.link_endpoints;
  links = delete_rows (λ l. l.id == id) db.links;
}

unfoldable pub update_link_endpoint : Db → WireGuardLinkEndpoint → Db
update_link_endpoint db e = record db {
  link_endpoints =
      map
        (λ x.
          if x.id == e.id
          then record e { id = x.id; link_id = x.link_id; node_id = x.node_id }
          else x)
        db.link_endpoints;
}

unfoldable pub touches_both : String → String → WireGuardLink → Bool
touches_both a b l = l.node_a == a && l.node_b == b || l.node_a == b && l.node_b == a

unfoldable pub has_rows {ℓ} : {A : Type ℓ} → List A → Bool
has_rows [] = false
has_rows (x ∷ xs) = true

-- COUNT(1) > 0
unfoldable pub link_exists_between : Db → String → String → Bool
link_exists_between db a b = has_rows (where_rows (touches_both a b) db.links)

-- The link with the id joins nothing that a disabled link would not join.
abbrev Other : String → WireGuardLink → Type 0
Other id l = l.id ≢ id

-- A link of the list, enabled, with an id that is not `id`, joins the two nodes.
abbrev pub LinkedWithout : String → List WireGuardLink → String → String → Type 0
LinkedWithout id [] a b = ⊥
LinkedWithout id (l ∷ ls) a b =
    (l.id ≢ id)
      × (l.enabled ≡ true)
      × ((l.node_a ≡ a) × (l.node_b ≡ b) ⊎ (l.node_a ≡ b) × (l.node_b ≡ a))
    ⊎ LinkedWithout id ls a b

switched-off :
    (id : String) (ls : List WireGuardLink) (a b : String)
    → Linked
        (map
          (λ l.
            if l.id == id
            then record l { enabled = false; status = if false then active else disabled }
            else l)
          ls)
        a
        b
      ↔ LinkedWithout id ls a b
switched-off id [] a b = ground arith
switched-off id (l ∷ ls) a b = ground (arith, eq_iff l.id id, switched-off id ls a b)

-- With a link switched off, two nodes are linked exactly when another enabled link joins them.
pub set_link_enabled-off_iff :
    (db : Db) (id a b : String)
    → Linked (set_link_enabled db id false).links a b ↔ LinkedWithout id db.links a b
unfolding set_link_enabled update_link
set_link_enabled-off_iff db id a b = switched-off id db.links a b

deleted :
    (id : String) (ls : List WireGuardLink) (a b : String)
    → Linked (delete_rows (λ l. l.id == id) ls) a b ↔ LinkedWithout id ls a b
deleted id [] a b = ground arith
deleted id (l ∷ ls) a b = ground (arith, eq_iff l.id id, deleted id ls a b)

-- After a link is deleted, two nodes are linked exactly when another enabled link joins them.
pub delete_link-Linked_iff :
    (db : Db) (id a b : String)
    → Linked (delete_link db id).links a b ↔ LinkedWithout id db.links a b
unfolding delete_link
delete_link-Linked_iff db id a b = deleted id db.links a b

exists-direct :
    (ls : List WireGuardLink) (a b : String)
    → has_direct_link ls a b ≡ true
    → has_rows (where_rows (touches_both a b) ls) ≡ true
unfolding has_direct_link joins touches_both has_rows
exists-direct [] a b h = h
exists-direct (l ∷ ls) a b h = ground (arith, exists-direct ls a b)

-- Two nodes that HasDirectLink joins are joined for LinkExistsBetween, which counts disabled links
-- too.
pub link_exists_between-direct :
    (db : Db) (a b : String)
    → has_direct_link db.links a b ≡ true
    → link_exists_between db a b ≡ true
unfolding link_exists_between
link_exists_between-direct db a b h = exists-direct db.links a b h
