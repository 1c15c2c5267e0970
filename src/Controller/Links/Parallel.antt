-- ===== src/Controller/Links/Parallel.antt =====
-- No two links join the same two nodes.
use sd_wan_plus.Base.{
  ℕ, String, ◌==◌, ◌≡◌, refl, inl, inr, Bool, true, false, Bool-cases, List, [], ◌∷◌, ◌++◌,
  if◌then◌else◌, map, All, All-append, arith,
}
use sd_wan_plus.Core.Types.{WireGuardLink}
use sd_wan_plus.Storage.Tables.{Db, where_rows}
use sd_wan_plus.Storage.Links.{
  touches_both, has_rows, known_ends, link_exists_between, create_link, create_link_endpoint,
  set_link_enabled, set_link_bidirectional, update_link,
}
use sd_wan_plus.Controller.State.{Call}
use sd_wan_plus.Controller.Links.{LinkBody, LinkPlan, link_of, insert_rows, insert_link}

-- Every two links of the list join different pairs of nodes.
abbrev pub NoParallel : List WireGuardLink → Type 0
NoParallel [] = Unit
NoParallel (l ∷ ls) = All (λ k. touches_both k.node_a k.node_b l ≡ false) ls × NoParallel ls

no_rows :
    {A : Type 0} (p : A → Bool) (xs : List A)
    → has_rows (where_rows p xs) ≡ false
    → All (λ x. p x ≡ false) xs
unfolding has_rows
no_rows p [] h = tt
no_rows p (x ∷ xs) h = elim (Bool-cases (p x)) [
  | inl e ↦ absurd (cc (rw e at h))
  | inr e ↦ (e, no_rows p xs (rw e at h))
]

NoParallel-append :
    (ls : List WireGuardLink) (l : WireGuardLink)
    → NoParallel ls
    → All (λ k. touches_both l.node_a l.node_b k ≡ false) ls
    → NoParallel (ls ++ l ∷ [])
NoParallel-append [] l n h = (tt, tt)
NoParallel-append (k ∷ ks) l n h =
    (All-append _ ks (l ∷ []) n.0 (h.0, tt), NoParallel-append ks l n.1 h.1)

module _ (g : WireGuardLink → WireGuardLink)
    (same_a : (l : WireGuardLink) → (g l).node_a ≡ l.node_a)
    (same_b : (l : WireGuardLink) → (g l).node_b ≡ l.node_b) where
  All-moved :
      (l : WireGuardLink) (ls : List WireGuardLink)
      → All (λ k. touches_both k.node_a k.node_b l ≡ false) ls
      → All (λ k. touches_both k.node_a k.node_b (g l) ≡ false) (map g ls)
  unfolding touches_both
  All-moved l [] h = tt
  All-moved l (k ∷ ks) h = (rw (same_a k, same_b k, same_a l, same_b l) h.0, All-moved l ks h.1)

  -- A change of the links that leaves their nodes.
  NoParallel-map : (ls : List WireGuardLink) → NoParallel ls → NoParallel (map g ls)
  NoParallel-map [] n = tt
  NoParallel-map (l ∷ ls) n = (All-moved l ls n.0, NoParallel-map ls n.1)

where_rows-All :
    {A : Type 0} (P : A → Type 0) (p : A → Bool) (xs : List A) → All P xs → All P (where_rows p xs)
where_rows-All P p [] h = tt
where_rows-All P p (x ∷ xs) h = elim (Bool-cases (p x)) [
  | inl e ↦ rw e (h.0, where_rows-All P p xs h.1)
  | inr e ↦ rw e (where_rows-All P p xs h.1)
]

pub NoParallel-where :
    (p : WireGuardLink → Bool) (ls : List WireGuardLink)
    → NoParallel ls
    → NoParallel (where_rows p ls)
NoParallel-where p [] n = tt
NoParallel-where p (l ∷ ls) n = elim (Bool-cases (p l)) [
  | inl e ↦ rw e (where_rows-All _ p ls n.0, NoParallel-where p ls n.1)
  | inr e ↦ rw e (NoParallel-where p ls n.1)
]

-- The nodes of a link that is switched or turned are as before.
NoParallel-update :
    (db : Db) (id : String) (f : WireGuardLink → WireGuardLink)
    → ((l : WireGuardLink) → (f l).node_a ≡ l.node_a)
    → ((l : WireGuardLink) → (f l).node_b ≡ l.node_b)
    → NoParallel db.links
    → NoParallel (update_link db id f).links
unfolding update_link
NoParallel-update db id f a b n =
    NoParallel-map (λ l. if l.id == id then f l else l) (λ l. ground (arith, a l))
      (λ l. ground (arith, b l)) db.links n

pub set_link_enabled-NoParallel :
    (db : Db) (id : String) (on : Bool)
    → NoParallel db.links
    → NoParallel (set_link_enabled db id on).links
unfolding set_link_enabled
set_link_enabled-NoParallel db id on n = NoParallel-update db id _ (λ l. refl) (λ l. refl) n

pub set_link_bidirectional-NoParallel :
    (db : Db) (id : String) (both : Bool)
    → NoParallel db.links
    → NoParallel (set_link_bidirectional db id both).links
unfolding set_link_bidirectional
set_link_bidirectional-NoParallel db id both n = NoParallel-update db id _ (λ l. refl) (λ l. refl) n

insert_rows-NoParallel :
    (c : Call) (b : LinkBody) (p : LinkPlan) (port_l port_i : ℕ) (db : Db)
    → NoParallel db.links
    → link_exists_between db b.node_a b.node_b ≡ false
    → NoParallel (insert_rows c b p port_l port_i db).links
unfolding insert_rows create_link create_link_endpoint link_exists_between link_of
insert_rows-NoParallel c b p port_l port_i db n free =
    elim (Bool-cases (known_ends db (link_of (c.uuid 0) b p port_l))) [
      | inl e ↦
          rw e (
            NoParallel-append db.links _ n (no_rows (touches_both b.node_a b.node_b) db.links free))
      | inr e ↦ rw e n
    ]

either :
    (on : Bool) (x y : Db)
    → NoParallel x.links
    → NoParallel y.links
    → NoParallel (if on then x else y).links
either true x y h k = h
either false x y h k = k

pub insert_link-NoParallel :
    (c : Call) (b : LinkBody) (p : LinkPlan) (port_l port_i : ℕ) (db : Db)
    → NoParallel db.links
    → link_exists_between db b.node_a b.node_b ≡ false
    → NoParallel (insert_link c b p port_l port_i db).links
unfolding insert_link
insert_link-NoParallel c b p port_l port_i db n free =
    either b.enabled (set_link_enabled rows (c.uuid 0) true) rows
      (set_link_enabled-NoParallel rows (c.uuid 0) true kept) kept
  where
    rows : Db
    rows = insert_rows c b p port_l port_i db

    kept : NoParallel rows.links
    kept = insert_rows-NoParallel c b p port_l port_i db n free
