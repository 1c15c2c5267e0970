-- ===== src/Storage/Removed.antt =====
-- After `DeleteNode`, nothing in the tables of nodes and links refers to the node.
use sd_wan_plus.Base.{
  ltb, String, ◌==◌, eq_iff, ◌≡◌, refl, sym, ◌∙◌, subst, ◌≢◌, inl, inr, Bool, true, false, not,
  ◌||◌, some, none, List, [], ◌∷◌, map, length, Member, All, All-mono, arith, Bool-cases,
  Option-cases, ==-cases,
}
use sd_wan_plus.Core.Types.{Node, WireGuardLink, WireGuardLinkEndpoint}
use sd_wan_plus.Storage.Tables.{Db, where_rows, delete_rows, get_node, children_of}
use sd_wan_plus.Storage.Links.{delete_link, list_links}
use sd_wan_plus.Storage.Removal.{
  NodeDeleteImpact, touches, link_ids_of, controller_impact, node_impact, node_delete_impact,
  deleted, delete_links, orphan, delete_rest, delete_allowed, delete_node,
}

-- Deleted rows do not satisfy the test, and what all rows satisfy, those that are left satisfy.
pub All-delete_rows :
    {A : Type 0} (p : A → Bool) (xs : List A) → All (λ x. p x ≡ false) (delete_rows p xs)
All-delete_rows p [] = tt
All-delete_rows p (x ∷ xs) = elim (Bool-cases (p x)) [
  | inl e ↦ rw e (All-delete_rows p xs)
  | inr e ↦ rw e (e, All-delete_rows p xs)
]

delete_rows-All :
    {A : Type 0} (P : A → Type 0) (p : A → Bool) (xs : List A) → All P xs → All P (delete_rows p xs)
delete_rows-All P p [] h = tt
delete_rows-All P p (x ∷ xs) h = elim (Bool-cases (p x)) [
  | inl e ↦ rw e (delete_rows-All P p xs h.1)
  | inr e ↦ rw e (h.0, delete_rows-All P p xs h.1)
]

delete_links-All :
    (P : WireGuardLink → Type 0) (db : Db) (ids : List String)
    → All P db.links
    → All P (delete_links db ids).links
unfolding delete_links delete_link
delete_links-All P db [] h = h
delete_links-All P db (i ∷ ids) h =
    delete_links-All P (delete_link db i) ids (delete_rows-All P (λ l. l.id == i) db.links h)

All-zip :
    {A : Type 0} {P Q R : A → Type 0} (xs : List A)
    → ((x : A) → P x → Q x → R x)
    → All P xs
    → All Q xs
    → All R xs
All-zip [] f a b = tt
All-zip (x ∷ xs) f a b = (f x a.0 b.0, All-zip xs f a.1 b.1)

All-any : {A : Type 0} {P : A → Type 0} (xs : List A) → ((x : A) → P x) → All P xs
All-any [] f = tt
All-any (x ∷ xs) f = (f x, All-any xs f)

delete_links-ids :
    (db : Db) (ids : List String) → All (λ l. ¬ Member l.id ids) (delete_links db ids).links
unfolding delete_links delete_link
delete_links-ids db [] = All-any db.links (λ l m. m)
delete_links-ids db (i ∷ ids) =
    All-zip (delete_links (delete_link db i) ids).links
      (λ l a b. ground (arith, a, b, eq_iff l.id i))
      (delete_links-All (λ l. (l.id == i) ≡ false) (delete_link db i) ids
        (All-delete_rows (λ l. l.id == i) db.links))
      (delete_links-ids (delete_link db i) ids)

delete_links-endpoints-All :
    (P : WireGuardLinkEndpoint → Type 0) (db : Db) (ids : List String)
    → All P db.link_endpoints
    → All P (delete_links db ids).link_endpoints
unfolding delete_links delete_link
delete_links-endpoints-All P db [] h = h
delete_links-endpoints-All P db (i ∷ ids) h =
    delete_links-endpoints-All P (delete_link db i) ids
      (delete_rows-All P (λ e. e.link_id == i) db.link_endpoints h)

delete_links-endpoints :
    (db : Db) (ids : List String)
    → All (λ e. ¬ Member e.link_id ids) (delete_links db ids).link_endpoints
unfolding delete_links delete_link
delete_links-endpoints db [] = All-any db.link_endpoints (λ e m. m)
delete_links-endpoints db (i ∷ ids) =
    All-zip (delete_links (delete_link db i) ids).link_endpoints
      (λ e a b. ground (arith, a, b, eq_iff e.link_id i))
      (delete_links-endpoints-All (λ e. (e.link_id == i) ≡ false) (delete_link db i) ids
        (All-delete_rows (λ e. e.link_id == i) db.link_endpoints))
      (delete_links-endpoints (delete_link db i) ids)

-- The links of a node are among those whose ids the query returns.
touching-Member :
    (id : String) (ls : List WireGuardLink)
    → All (λ l. touches id l ≡ true → Member l.id (map (λ k. k.id) (where_rows (touches id) ls))) ls
touching-Member id [] = tt
touching-Member id (l ∷ ls) = elim (Bool-cases (touches id l)) [
  | inl e ↦
      subst (λ w. All (λ k. touches id k ≡ true → Member k.id (map (λ m. m.id) w)) (l ∷ ls))
        (sym (where_rows-hit l ls e))
        ((λ h. inl refl), All-mono ls (λ k f h. inr (f h)) (touching-Member id ls))
  | inr e ↦
      subst (λ w. All (λ k. touches id k ≡ true → Member k.id (map (λ m. m.id) w)) (l ∷ ls))
        (sym (where_rows-miss l ls e)) ((λ h. absurd (cc (sym h ∙ e))), touching-Member id ls)
]
  where
    where_rows-hit :
        (k : WireGuardLink) (ks : List WireGuardLink)
        → touches id k ≡ true
        → where_rows (touches id) (k ∷ ks) ≡ k ∷ where_rows (touches id) ks
    where_rows-hit k ks e = rw e refl

    where_rows-miss :
        (k : WireGuardLink) (ks : List WireGuardLink)
        → touches id k ≡ false
        → where_rows (touches id) (k ∷ ks) ≡ where_rows (touches id) ks
    where_rows-miss k ks e = rw e refl

orphan-parent :
    (id : String) (ns : List Node) → All (λ n. n.control_parent_id ≢ some id) (map (orphan id) ns)
unfolding orphan
orphan-parent id [] = tt
orphan-parent id (n ∷ ns) = (
  elim (Option-cases n.control_parent_id) [
    | inl e ↦ rw (e, orphan) (λ x. cc (sym e ∙ x))
    | inr (p, e) ↦ elim (==-cases p id) [
      | inl (x, y) ↦ rw (orphan, e, y) (λ z. cc z)
      | inr (x, y) ↦ rw (orphan, e, y) (λ z. x (let w = sym e ∙ z in cc))
    ]
  ],
  orphan-parent id ns,
)

-- Nothing in these tables refers to the node.
pub record Gone (before db : Db) (id : String) : Type 0 where
  pub node : All (λ n. (n.id == id) ≡ false) db.nodes
  pub parents : All (λ n. n.control_parent_id ≢ some id) db.nodes
  pub links : All (λ l. touches id l ≡ false) db.links
  pub endpoints : All (λ e. ¬ Member e.link_id (link_ids_of before id)) db.link_endpoints
  pub relations : All (λ r. (r.parent_id == id || r.child_id == id) ≡ false) db.control_relations
  pub addresses : All (λ a. (a.node_id == id) ≡ false) db.node_addresses
  pub tokens : All (λ t. (t.parent_node_id == id) ≡ false) db.enrollment_tokens

delete-Gone :
    (db : Db) (id : String) → Gone db (delete_rest (delete_links db (link_ids_of db id)) id) id
unfolding delete_rest list_links
delete-Gone db id =
    let d = delete_links db (link_ids_of db id) in
    record {
      node = All-delete_rows (λ n. n.id == id) (map (orphan id) d.nodes);
      parents =
          delete_rows-All (λ n. n.control_parent_id ≢ some id) (λ n. n.id == id)
            (map (orphan id) d.nodes) (orphan-parent id d.nodes);
      links =
          All-zip d.links
            (λ l f g. elim (Bool-cases (touches id l)) [ inl t ↦ absurd (g (f t)) | inr t ↦ t ])
            (delete_links-All (λ l. touches id l ≡ true → Member l.id (link_ids_of db id)) db
              (link_ids_of db id) (touching-Member id db.links))
            (delete_links-ids db (link_ids_of db id));
      endpoints = delete_links-endpoints db (link_ids_of db id);
      relations = All-delete_rows (λ r. r.parent_id == id || r.child_id == id) d.control_relations;
      addresses = All-delete_rows (λ a. a.node_id == id) d.node_addresses;
      tokens = All-delete_rows (λ t. t.parent_node_id == id) d.enrollment_tokens;
    }

length-children : {A : Type 0} (xs : List A) → not (ltb 0 (length xs)) ≡ true → xs ≡ []
length-children [] h = refl
length-children (x ∷ xs) h = absurd (ground arith)

-- A node that DeleteNode deletes was there, was not the controller and had no children; and after it
-- no link ends at it, no endpoint of its links is left, and no node, relation, address or token names
-- it.
pub delete_node-Gone :
    (db after : Db) (id : String)
    → delete_node db id ≡ deleted after
    → ((n : Node) × (get_node db id ≡ some n)
        × (n.is_controller ≡ false)
        × (children_of db id ≡ []))
      × Gone db after id
unfolding delete_node delete_allowed node_delete_impact node_impact controller_impact
delete_node-Gone db after id h = elim (Option-cases (get_node db id)) [
  | inl g ↦ absurd (lost g h)
  | inr (n, g) ↦ elim (Bool-cases n.is_controller) [
    | inl c ↦ absurd (kept n g c h)
    | inr c ↦
        let (open', e) = allowed (node_impact db n id) (found n g c h) in
        (
          (n, g, c, length-children (children_of db id) open'),
          subst (λ d. Gone db d id) e (delete-Gone db id),
        )
  ]
]
  where
    lost : get_node db id ≡ none → ¬ (delete_node db id ≡ deleted after)
    lost g = rw (delete_node, node_delete_impact, g) (λ x. cc)

    kept :
        (n : Node)
        → get_node db id ≡ some n
        → n.is_controller ≡ true
        → ¬ (delete_node db id ≡ deleted after)
    kept n g c = rw (delete_node, node_delete_impact, g, c) (λ x. cc)

    found :
        (n : Node)
        → get_node db id ≡ some n
        → n.is_controller ≡ false
        → delete_node db id ≡ deleted after
        → delete_allowed db id (node_impact db n id) ≡ deleted after
    found n g c = rw (delete_node, node_delete_impact, g, c) (λ x. x)

    allowed :
        (impact : NodeDeleteImpact)
        → delete_allowed db id impact ≡ deleted after
        → (impact.can_delete ≡ true)
          × (delete_rest (delete_links db (link_ids_of db id)) id ≡ after)
    allowed impact x = ground arith
