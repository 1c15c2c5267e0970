-- ===== src/Topology/Bfs/Correct.antt =====
-- What `NextHop` answers, in terms of walks over the enabled links.
use mathlib.Core.List.{Memᴰ}
use sd_wan_plus.Base.{
  ℕ, suc, ◌≤◌, String, ◌==◌, eq_iff, ◌≡◌, refl, sym, ap, ◌∙◌, subst, inl, inr, ◌≢◌, ◌↔◌, true, ◌||◌,
  Bool-cases, Option-cases, some, none, List, [], ◌∷◌, append-nil, arith, ==-false,
}
use sd_wan_plus.Core.Types.{WireGuardLink}
use sd_wan_plus.Topology.Links.{Linked, Offered}
use sd_wan_plus.Topology.Tree.{NextHopResult}
use sd_wan_plus.Topology.Bfs.{
  Neighbor, first_of_neighbor, scan_source, answer, search_queue, enabled_adj, enough, next_hop,
}
use sd_wan_plus.Topology.Bfs.Walks.{
  Edge, Walk, here, step, Walk-mono, Edge-enabled_adj, Gives, Memᴰ-enabled_adj,
}
use sd_wan_plus.Topology.Bfs.Scan.{scan_source-Sourced, scan_source-found}
use sd_wan_plus.Topology.Bfs.Rounds.{Outcome-cases, next_hop-answer}
use sd_wan_plus.Topology.Bfs.Shortest.{Shortest, Promised, search_queue-Promised, Inv-start}

Gives-Offered :
    (ls : List WireGuardLink) (u : String) (n : Neighbor)
    → Gives ls u n
    → Offered ls u n.node_id n.iface n.link_id
Gives-Offered [] u n g = absurd g
Gives-Offered (l ∷ ls) u n g = ground (
  arith,
  Gives-Offered ls u n,
  λ (a b : Neighbor) (e : a ≡ b). ap (λ k. k.node_id) e,
  λ (a b : Neighbor) (e : a ≡ b). ap (λ k. k.link_id) e,
  λ (a b : Neighbor) (e : a ≡ b). ap (λ k. k.iface) e,
)

-- A walk of positive length from the source to itself aside, a walk has an edge.
Walk-apart : {R : String → String → Type 0} {s v : String} {m : ℕ} → s ≢ v → Walk R s m v → 1 ≤ m
Walk-apart f (here e) = absurd (f e)
Walk-apart f (step w e) = omega arith

-- The hop is offered by an enabled link of `src`, a walk of `k` links leads on from its peer, and no
-- walk from `src` has fewer than `suc k` links.
pub record ShortestHop (links : List WireGuardLink) (src dst : String) (h : NextHopResult)
    : Type 0 where
  pub offered : Offered links src h.peer_id h.iface h.link_id
  pub k : ℕ
  pub onward : Walk (Linked links) h.peer_id k dst
  pub least : (m : ℕ) → Walk (Linked links) src m dst → suc k ≤ m

Walk-cons :
    {R : String → String → Type 0} {s t v : String} {m : ℕ}
    → R s t
    → Walk R t m v
    → Walk R s (suc m) v
Walk-cons {R} {s} r (here e) = step (here refl) (subst (R s) e r)
Walk-cons r (step w e) = step (Walk-cons r w) e

Offered-Linked : (ls : List WireGuardLink) (a b i k : String) → Offered ls a b i k → Linked ls a b
Offered-Linked [] a b i k o = o
Offered-Linked (l ∷ ls) a b i k o = ground (arith, Offered-Linked ls a b i k)

module _ (links : List WireGuardLink) (src dst : String) where
  next_hop-run :
      src ≢ ""
      → dst ≢ ""
      → src ≢ dst
      → Promised (enabled_adj links) src dst (next_hop links src dst)
  unfolding next_hop
  next_hop-run a b c =
      elim (Outcome-cases (scan_source dst (enabled_adj links src) (src ∷ []) [])) [
        | inl (hop, o) ↦
            let (n, m, e, x) = scan_source-found dst (enabled_adj links src) (src ∷ []) [] hop o in
            let run : next_hop links src dst ≡ answer (some hop) =
              rw (==-false a, ==-false b, ==-false c, o, next_hop) in
            subst (Promised (enabled_adj links) src dst) (sym run) (record {
              beside = (n, m, e);
              k = 0;
              onward = here (sym (ap (λ h. h.peer_id) e) ∙ x);
              least = λ k w. Walk-apart c w;
            })
        | inr (seen, q, o) ↦
            let run : next_hop links src dst
                ≡ search_queue (enabled_adj links) dst (enough links) seen q =
              rw (==-false a, ==-false b, ==-false c, o, next_hop) in
            let inv =
              Inv-start (enabled_adj links) src dst c
                (scan_source-Sourced dst (enabled_adj links src) (src ∷ []) seen [] q o) in
            subst (Promised (enabled_adj links) src dst)
              (sym (
                run
                ∙ ap (search_queue (enabled_adj links) dst (enough links) seen)
                    (sym (append-nil q))))
              (search_queue-Promised (enabled_adj links) src dst (enough links) 0 q [] seen inv)
      ]

  Linked-Walk :
      {s v : String} {k : ℕ} → Walk (Edge (enabled_adj links)) s k v → Walk (Linked links) s k v
  Linked-Walk = Walk-mono (λ a b. (Edge-enabled_adj links a b).0)

  Edge-Walk :
      {s v : String} {k : ℕ} → Walk (Linked links) s k v → Walk (Edge (enabled_adj links)) s k v
  Edge-Walk = Walk-mono (λ a b. (Edge-enabled_adj links a b).1)

  -- With a guard of `NextHop` taken there is no hop.
  next_hop-guarded :
      (src == "" || dst == "" || src == dst) ≡ true → next_hop links src dst ≡ answer none
  unfolding next_hop
  next_hop-guarded e = rw (e, next_hop)

  Shortest-Linked :
      (h : NextHopResult) → Shortest (enabled_adj links) src dst h → ShortestHop links src dst h
  Shortest-Linked h s = record {
    offered = offered s.beside;
    k = s.k;
    onward = Linked-Walk s.onward;
    least = λ m w. s.least m (Edge-Walk w);
  }
    where
      offered :
          (n : Neighbor) × Memᴰ n (enabled_adj links src) × (first_of_neighbor n ≡ h)
          → Offered links src h.peer_id h.iface h.link_id
      offered (n, m, e) =
          subst (λ t. Offered links src t.peer_id t.iface t.link_id) e
            (Gives-Offered links src n ((Memᴰ-enabled_adj links src n).0 m))

  -- A hop that `NextHop` returns is on `src`'s side of an enabled link to the peer that it names, a
  -- walk of enabled links leads on from that peer to `dst`, and no walk from `src` to `dst` has fewer
  -- links than the hop and that walk together.
  pub next_hop-ShortestHop :
      (h : NextHopResult) → next_hop links src dst ≡ answer (some h) → ShortestHop links src dst h
  next_hop-ShortestHop h e = elim (Bool-cases (src == "" || dst == "" || src == dst)) [
    | inl g ↦ absurd (ground (arith, next_hop-guarded g, e))
    | inr g ↦ Shortest-Linked h (
        subst (Promised (enabled_adj links) src dst) e (
          next_hop-run (ground (arith, eq_iff src "")) (ground (arith, eq_iff dst ""))
            (ground (arith, eq_iff src dst))))
  ]

  -- For two different nodes with ids that are not empty, `NextHop` answers that there is no hop
  -- exactly when no walk of enabled links leads from one to the other.
  pub next_hop-none_iff :
      src ≢ ""
      → dst ≢ ""
      → src ≢ dst
      → (next_hop links src dst ≡ answer none) ↔ ((m : ℕ) → ¬ Walk (Linked links) src m dst)
  next_hop-none_iff a b c = (
    λ e m w. subst (Promised (enabled_adj links) src dst) e (next_hop-run a b c) m (Edge-Walk w),
    λ f.
        let (r, e) = next_hop-answer links src dst in
        elim (Option-cases r) [
          | inl x ↦ e ∙ ap answer x
          | inr (h, x) ↦
              let s = next_hop-ShortestHop h (e ∙ ap answer x) in
              absurd (
                f (suc s.k) (
                  Walk-cons (Offered-Linked links src h.peer_id h.iface h.link_id s.offered)
                    s.onward))
        ],
  )
