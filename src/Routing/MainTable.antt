-- ===== src/Routing/MainTable.antt =====
-- The main table of routes under `appendOverlayRoute`: no destination twice, and one more each time.
use sd_wan_plus.Base.{
  String, eq_iff, ◌≡◌, refl, sym, ap, subst, ◌↔◌, ◌⊎◌, inl, inr, true, Bool-cases, List, [], ◌∷◌,
  ◌++◌, Member, Member-append, Distinct, All, All-append, map, arith,
}
use sd_wan_plus.Routing.Types.{RouteCfg, RouteTableCfg}
use sd_wan_plus.Routing.Compile.{host_route, has_destination, append_overlay_route}

abbrev pub destinations : List RouteCfg → List String
destinations = map (λ r. r.destination)

-- The tables are the main table with these routes, or none while it has no route.
abbrev pub IsMain : List RouteTableCfg → List RouteCfg → Type 0
IsMain tables [] = tables ≡ []
IsMain tables (r ∷ rs) = tables ≡ record { table_id = 0; routes = r ∷ rs } ∷ []

has_destination_iff :
    (rs : List RouteCfg) (d : String) → (has_destination rs d ≡ true) ↔ Member d (destinations rs)
unfolding has_destination
has_destination_iff [] d = ground arith
has_destination_iff (r ∷ rs) d = ground (arith, has_destination_iff rs d, eq_iff r.destination d)

destinations-append :
    (rs qs : List RouteCfg) → destinations (rs ++ qs) ≡ destinations rs ++ destinations qs
destinations-append [] qs = refl
destinations-append (r ∷ rs) qs = ap (λ t. r.destination ∷ t) (destinations-append rs qs)

Distinct-concat :
    (xs : List String) (x : String) → Distinct xs → ¬ Member x xs → Distinct (xs ++ x ∷ [])
Distinct-concat [] x d f = (λ m. m, tt)
Distinct-concat (y ∷ xs) x d f =
    (ground (arith, Member-append y xs (x ∷ [])), Distinct-concat xs x d.1 (λ m. f (inr m)))

-- The main table after some rounds: what it holds, with no destination twice.
pub record Routed (tables : List RouteTableCfg) (routes : List RouteCfg) : Type 0 where
  pub main : IsMain tables routes
  pub distinct : Distinct (destinations routes)

-- A round that adds a route for `dest`.
pub record Added (tables : List RouteTableCfg) (routes : List RouteCfg) (dest iface : String)
    : Type 1 where
  pub after : List RouteCfg
  pub routed : Routed (append_overlay_route tables dest iface) after
  pub holds :
      (d : String) → Member d (destinations after) ↔ (Member d (destinations routes) ⊎ (d ≡ dest))
  pub kept : (P : RouteCfg → Type 0) → All P routes → P (host_route dest iface) → All P after

pub append_overlay_route-Added :
    (tables : List RouteTableCfg) (routes : List RouteCfg) (dest iface : String)
    → Routed tables routes
    → Added tables routes dest iface
unfolding append_overlay_route
append_overlay_route-Added tables [] dest iface h = record {
  after = host_route dest iface ∷ [];
  routed = record { main = rw h.main refl; distinct = (λ m. m, tt) };
  holds = λ d. ground arith;
  kept = λ P a p. (p, tt);
}
append_overlay_route-Added tables (r ∷ rs) dest iface h =
    elim (Bool-cases (has_destination (r ∷ rs) dest)) [
      | inl e ↦ record {
        after = r ∷ rs;
        routed = record { main = rw h.main (rw e refl); distinct = h.distinct };
        holds = λ d. ground (arith, has_destination_iff (r ∷ rs) dest);
        kept = λ P a p. a;
      }
      | inr e ↦ record {
        after = r ∷ rs ++ host_route dest iface ∷ [];
        routed = record {
          main = rw h.main (rw e refl);
          distinct =
              subst Distinct (sym (destinations-append (r ∷ rs) (host_route dest iface ∷ []))) (
                Distinct-concat (destinations (r ∷ rs)) dest h.distinct
                  (ground (arith, has_destination_iff (r ∷ rs) dest)));
        };
        holds = λ d.
            subst (λ t. Member d t ↔ (Member d (destinations (r ∷ rs)) ⊎ (d ≡ dest)))
              (sym (destinations-append (r ∷ rs) (host_route dest iface ∷ [])))
              (ground (arith, Member-append d (destinations (r ∷ rs)) (dest ∷ [])));
        kept = λ P a p. All-append P (r ∷ rs) (host_route dest iface ∷ []) a (p, tt);
      }
    ]
