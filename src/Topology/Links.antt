-- ===== src/Topology/Links.antt =====
-- internal/topology/graph.go: `HasDirectLink` and `LinkToward`, against the relation `Linked`.
use sd_wan_plus.Base.{
  String, ◌==◌, eq_iff, ◌≡◌, refl, ◌↔◌, ◌⊎◌, inl, inr, Bool, true, false, not, ◌&&◌, ◌||◌, Option,
  some, none, List, [], ◌∷◌, if◌then◌else◌, Bool-cases, arith,
}
use sd_wan_plus.Core.Types.{WireGuardLink}

unfoldable pub joins : WireGuardLink → String → String → Bool
joins l a b = l.node_a == a && l.node_b == b || l.node_a == b && l.node_b == a

unfoldable pub has_direct_link : List WireGuardLink → String → String → Bool
has_direct_link [] a b = false
has_direct_link (l ∷ ls) a b =
    let rest = has_direct_link ls a b in
    if not l.enabled then rest else if joins l a b then true else rest

-- A return on a hit, and the rest of the loop where there is none.
abbrev pub or_else {ℓ} : {A : Type ℓ} → Option A → Option A → Option A
or_else none rest = rest
or_else (some x) rest = some x

-- The body of the loop of `LinkToward`: the interface name and the link id on `src`'s side.
unfoldable pub facing : WireGuardLink → String → String → Option (String × String)
facing l src dst =
    if l.node_a == src && l.node_b == dst
    then some (l.interface_name_a, l.id)
    else if l.node_b == src && l.node_a == dst
    then some (l.interface_name_b, l.id)
    else none

unfoldable pub link_toward : List WireGuardLink → String → String → Option (String × String)
link_toward [] src dst = none
link_toward (l ∷ ls) src dst =
    let rest = link_toward ls src dst in
    if not l.enabled then rest else or_else (facing l src dst) rest

-- The link is enabled, and its end at `a` has the interface name `i` and faces `b`.
abbrev pub Faces : WireGuardLink → String → String → String → Type 0
Faces l a b i =
    (l.enabled ≡ true)
    × ((l.node_a ≡ a) × (l.node_b ≡ b) × (l.interface_name_a ≡ i)
        ⊎ (l.node_b ≡ a) × (l.node_a ≡ b) × (l.interface_name_b ≡ i))

-- The link is enabled and joins the two nodes, in either direction.
abbrev pub Joins : WireGuardLink → String → String → Type 0
Joins l a b =
    (l.enabled ≡ true) × ((l.node_a ≡ a) × (l.node_b ≡ b) ⊎ (l.node_a ≡ b) × (l.node_b ≡ a))

-- Some link of the list joins the two nodes.
abbrev pub Linked : List WireGuardLink → String → String → Type 0
Linked [] a b = ⊥
Linked (l ∷ ls) a b = Joins l a b ⊎ Linked ls a b

-- Some link of the list with the id `k` faces `b` from `a` under the interface name `i`.
abbrev pub Offered : List WireGuardLink → String → String → String → String → Type 0
Offered [] a b i k = ⊥
Offered (l ∷ ls) a b i k = (l.id ≡ k) × Faces l a b i ⊎ Offered ls a b i k

joins_iff :
    (l : WireGuardLink) (a b : String) → l.enabled ≡ true → (joins l a b ≡ true) ↔ Joins l a b
unfolding joins
joins_iff l a b h =
    ground (arith, eq_iff l.node_a a, eq_iff l.node_b b, eq_iff l.node_b a, eq_iff l.node_a b)

facing-Faces :
    (l : WireGuardLink) (a b i k : String)
    → l.enabled ≡ true
    → facing l a b ≡ some (i, k)
    → (l.id ≡ k) × Faces l a b i
unfolding facing
facing-Faces l a b i k h e =
    ground (arith, eq_iff l.node_a a, eq_iff l.node_b b, eq_iff l.node_b a, eq_iff l.node_a b)

facing-joins : (l : WireGuardLink) (a b : String) → (facing l a b ≡ none) ↔ (joins l a b ≡ false)
unfolding facing joins
facing-joins l a b = ground arith

joins_comm : (l : WireGuardLink) (a b : String) → joins l a b ≡ joins l b a
unfolding joins
joins_comm l a b = ground arith

-- `HasDirectLink` answers whether an enabled link joins the two nodes, in either direction.
pub has_direct_link_iff :
    (ls : List WireGuardLink) (a b : String) → (has_direct_link ls a b ≡ true) ↔ Linked ls a b
unfolding has_direct_link
has_direct_link_iff [] a b = (λ h. cc, λ h. absurd h)
has_direct_link_iff (l ∷ ls) a b = elim (Bool-cases l.enabled) [
  | inl e ↦ ground (arith, joins_iff l a b e, has_direct_link_iff ls a b)
  | inr e ↦ ground (arith, has_direct_link_iff ls a b)
]

pub has_direct_link_comm :
    (ls : List WireGuardLink) (a b : String) → has_direct_link ls a b ≡ has_direct_link ls b a
unfolding has_direct_link
has_direct_link_comm [] a b = refl
has_direct_link_comm (l ∷ ls) a b = rw (joins_comm l a b, has_direct_link_comm ls a b)

-- What `LinkToward` returns is on `src`'s side of an enabled link to `dst`.
pub link_toward-Offered :
    (ls : List WireGuardLink) (a b i k : String)
    → link_toward ls a b ≡ some (i, k)
    → Offered ls a b i k
unfolding link_toward
link_toward-Offered [] a b i k h = cc
link_toward-Offered (l ∷ ls) a b i k h = elim (Bool-cases l.enabled) [
  | inl e ↦ ground (arith, facing-Faces l a b i k e, link_toward-Offered ls a b i k)
  | inr e ↦ ground (arith, link_toward-Offered ls a b i k)
]

-- `LinkToward` finds a link exactly when `HasDirectLink` says that there is one.
pub link_toward-none_iff :
    (ls : List WireGuardLink) (a b : String)
    → (link_toward ls a b ≡ none) ↔ (has_direct_link ls a b ≡ false)
unfolding link_toward has_direct_link
link_toward-none_iff [] a b = ground arith
link_toward-none_iff (l ∷ ls) a b = ground (arith, facing-joins l a b, link_toward-none_iff ls a b)
