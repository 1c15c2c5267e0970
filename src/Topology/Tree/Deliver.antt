-- ===== src/Topology/Tree/Deliver.antt =====
-- Forwarding by `ControlNextHop` at every node arrives.
use sd_wan_plus.Base.{
  ℕ, suc, String, ==-false, eq_iff, ◌≡◌, refl, sym, subst, ◌⊎◌, inl, inr, ◌≢◌, true, Option, some,
  none, Option-cases, List, [], ◌∷◌, Dict, length, arith,
}
use sd_wan_plus.Core.Types.{WireGuardLink, Node}
use sd_wan_plus.Topology.Links.{link_toward, link_toward-none_iff, link_toward-Offered, Offered}
use sd_wan_plus.Topology.Tree.{
  max_rounds, control_tree_path, parents_from, all_linked, NextHopResult, first_hop,
  control_next_hop, add_parent,
}
use sd_wan_plus.Topology.Tree.Routes.{Parent, IsForest, Anc, self, above, arrive, Route-unique}
use sd_wan_plus.Topology.Tree.Search.{control_tree_path_iff}
use sd_wan_plus.Topology.Tree.Step.{Route-Move, Route-single}

-- Every parent that is recorded has a name.
abbrev Named : Dict String → Type 0
Named m = (n p : String) → Parent m n p → p ≢ ""

add_parent-Named :
    (m : Dict String) (id : String) (q : Option String) → Named m → Named (add_parent m id q)
unfolding add_parent
add_parent-Named m id none h n p = h n p
add_parent-Named m id (some q) h n p = ground (arith, eq_iff q "", eq_iff id n, h n p)

parents_from-Named : (m : Dict String) (ns : List Node) → Named m → Named (parents_from m ns)
unfolding parents_from
parents_from-Named m [] h = h
parents_from-Named m (n ∷ ns) h =
    parents_from-Named (add_parent m n.id n.control_parent_id) ns
      (add_parent-Named m n.id n.control_parent_id h)

-- Forwarding from a node, hop by hop, reaches `d` after the given number of hops.
pub data Delivered (nodes : List Node) (links : List WireGuardLink) (d : String)
    : String → ℕ → Type 0 where
  here : {s : String} → s ≡ d → Delivered nodes links d s 0
  forward :
      {s : String} {k : ℕ} (h : NextHopResult)
      → control_next_hop nodes links s d ≡ some h
      → Delivered nodes links d h.peer_id k
      → Delivered nodes links d s (suc k)

-- What a next hop says of the path.
control_next_hop-some :
    (nodes : List Node) (links : List WireGuardLink) (s d : String) (h : NextHopResult)
    → control_next_hop nodes links s d ≡ some h
    → (s ≢ "")
      × (d ≢ "")
      × (s ≢ d)
      × ((path : List String) × (control_tree_path (parents_from [] nodes) s d ≡ some path)
          × (first_hop links s path ≡ some h))
unfolding control_next_hop
control_next_hop-some nodes links s d h e =
    elim (Option-cases (control_tree_path (parents_from [] nodes) s d)) [
      | inl x ↦ absurd (ground (arith, x))
      | inr (path, x) ↦ (
        λ a. ground (arith, eq_iff s ""),
        λ a. ground (arith, eq_iff d ""),
        λ a. ground (arith, eq_iff s d),
        (path, x, ground (arith, x)),
      )
    ]

first_hop-some :
    (links : List WireGuardLink) (s : String) (path : List String) (h : NextHopResult)
    → first_hop links s path ≡ some h
    → (a b : String) × (rest : List String) × (path ≡ a ∷ b ∷ rest)
      × (all_linked links path ≡ true)
      × (h.peer_id ≡ b)
      × (link_toward links s b ≡ some (h.iface, h.link_id))
unfolding first_hop
first_hop-some links s [] h e = absurd (cc e)
first_hop-some links s (a ∷ []) h e = absurd (cc e)
first_hop-some links s (a ∷ b ∷ rest) h e =
    (a, b, rest, refl, ground arith, ground arith, ground arith)

-- What is above a named node is named.
Anc-Named :
    {parent_of : Dict String} {a d : String} → Named parent_of → Anc parent_of a d → d ≢ "" → a ≢ ""
Anc-Named named self n = n
Anc-Named named (above {d} {p} f a) n = Anc-Named named a (named d p f)

module _ (nodes : List Node) (links : List WireGuardLink) (d : String)
    (forest : IsForest (parents_from [] nodes) max_rounds) (d_named : d ≢ "") where
  named : Named (parents_from [] nodes)
  named = parents_from-Named [] nodes (λ n p e. cc)

  -- One hop of forwarding along a path whose edges are all linked.
  hop_along :
      (s x : String) (rest : List String)
      → s ≢ ""
      → control_tree_path (parents_from [] nodes) s d ≡ some (s ∷ x ∷ rest)
      → all_linked links (s ∷ x ∷ rest) ≡ true
      → (h : NextHopResult) × (control_next_hop nodes links s d ≡ some h)
        × (h.peer_id ≡ x)
        × (all_linked links (x ∷ rest) ≡ true)
  unfolding control_next_hop first_hop all_linked
  hop_along s x rest n e l = elim (Option-cases (link_toward links s x)) [
    | inl missing ↦ absurd (ground (arith, link_toward-none_iff links s x))
    | inr ((i, k), found) ↦ (
      record { peer_id = x; iface = i; link_id = k },
      ground (arith, found, e, ==-false n, ==-false d_named, ==-false apart),
      refl,
      ground arith,
    )
  ]
    where
      apart : s ≢ d
      apart same =
          let long : s ∷ x ∷ rest ≡ s ∷ [] =
            Route-unique forest ((control_tree_path_iff forest s d (s ∷ x ∷ rest)).0 e)
              (arrive same) in
          cc long

  next_named :
      (s x : String)
      → Parent (parents_from [] nodes) s x
        ⊎ Parent (parents_from [] nodes) x s × Anc (parents_from [] nodes) x d
      → x ≢ ""
  next_named s x (inl f) = named s x f
  next_named s x (inr (f, a)) = Anc-Named named a d_named

  Delivered-path :
      (rest : List String) (s : String)
      → s ≢ ""
      → control_tree_path (parents_from [] nodes) s d ≡ some (s ∷ rest)
      → all_linked links (s ∷ rest) ≡ true
      → Delivered nodes links d s (length rest)
  Delivered-path [] s n e l =
      here (Route-single ((control_tree_path_iff forest s d (s ∷ [])).0 e) refl)
  Delivered-path (x ∷ rest) s n e l =
      let (h, hop, peer, l') = hop_along s x rest n e l in
      let (first, move) = Route-Move ((control_tree_path_iff forest s d (s ∷ x ∷ rest)).0 e) refl in
      forward h hop (
        subst (λ y. Delivered nodes links d y (length rest)) (sym peer)
          (Delivered-path rest x (next_named s x move.turn)
            ((control_tree_path_iff forest x d (x ∷ rest)).1 move.onward) l'))

-- When `ControlNextHop` returns a hop and the control tree is a forest of at most 1025 levels,
-- forwarding by `ControlNextHop` at each node in turn reaches `dst`: it returns a hop at every node
-- on the way, and the number of hops is that of the tree path.
pub control_next_hop-Delivered :
    (nodes : List Node) (links : List WireGuardLink) (s d : String) (h : NextHopResult)
    → IsForest (parents_from [] nodes) max_rounds
    → control_next_hop nodes links s d ≡ some h
    → (path : List String) × (control_tree_path (parents_from [] nodes) s d ≡ some (s ∷ path))
      × Delivered nodes links d s (length path)
control_next_hop-Delivered nodes links s d h forest e =
    let (s_named, d_named, apart, (path, is_path, first)) =
      control_next_hop-some nodes links s d h e in
    let (a, b, rest, shape, linked, peer, side) = first_hop-some links s path h first in
    let (same, move) = Route-Move ((control_tree_path_iff forest s d path).0 is_path) shape in
    let is_path' : control_tree_path (parents_from [] nodes) s d ≡ some (s ∷ b ∷ rest) = cc in
    let linked' : all_linked links (s ∷ b ∷ rest) ≡ true = cc in
    (
      b ∷ rest,
      is_path',
      Delivered-path nodes links d forest d_named (b ∷ rest) s s_named is_path' linked',
    )

-- What `ControlNextHop` returns is on `src`'s side of an enabled link to the peer that it names.
pub control_next_hop-Offered :
    (nodes : List Node) (links : List WireGuardLink) (s d : String) (h : NextHopResult)
    → control_next_hop nodes links s d ≡ some h
    → Offered links s h.peer_id h.iface h.link_id
control_next_hop-Offered nodes links s d h e =
    let (s_named, d_named, apart, (path, is_path, first)) =
      control_next_hop-some nodes links s d h e in
    let (a, b, rest, shape, linked, peer, side) = first_hop-some links s path h first in
    link_toward-Offered links s h.peer_id h.iface h.link_id (rw peer side)
