-- ===== src/Topology/Path.antt =====
-- internal/topology/graph.go: `ValidatePath`.
use sd_wan_plus.Base.{
  ◌≤◌, ◌<◌, String, ◌≡◌, ◌↔◌, ◌⊎◌, Option, some, none, List, [], ◌∷◌, if◌then◌else◌, length, Member,
  Distinct, contains, contains_iff, arith, All, str_append,
}
use sd_wan_plus.Core.Errors.{AppError, validation, forwarding_loop, no_link, new_error}
use sd_wan_plus.Core.Types.{WireGuardLink}
use sd_wan_plus.Topology.Links.{has_direct_link, has_direct_link_iff, Linked}

-- What the error says of the two ends of a hop.
no_link_between : String → String → AppError
no_link_between a b =
    new_error no_link
      (str_append "no WireGuard link between " (str_append a (str_append " and " b)))

duplicate_node : String → AppError
duplicate_node h = new_error forwarding_loop (str_append "duplicate node in path: " h)

-- The body of the loop from the second hop on: `seen` and the hop before.
check_hops : List WireGuardLink → List String → String → List String → Option AppError
unfolding duplicate_node no_link_between
check_hops links seen prev [] = none
check_hops links seen prev (h ∷ hops) =
    let rest = check_hops links (h ∷ seen) h hops in
    if contains seen h
    then some (duplicate_node h)
    else if has_direct_link links prev h
    then rest
    else some (no_link_between prev h)

-- The first hop has no predecessor, and nothing is seen yet. `none` is a nil error.
unfoldable pub validate_path : List WireGuardLink → List String → Option AppError
unfolding check_hops
validate_path links [] = some (new_error validation "path needs at least 2 nodes")
validate_path links (h ∷ []) = some (new_error validation "path needs at least 2 nodes")
validate_path links (h ∷ k ∷ hops) = check_hops links (h ∷ []) h (k ∷ hops)

-- Each hop is linked to the one before it.
abbrev pub Chained : List WireGuardLink → String → List String → Type 0
Chained links prev [] = Unit {0}
Chained links prev (h ∷ hops) = Linked links prev h × Chained links h hops

abbrev pub IsChain : List WireGuardLink → List String → Type 0
IsChain links [] = Unit {0}
IsChain links (h ∷ hops) = Chained links h hops

-- None of the hops has been seen.
abbrev Fresh : List String → List String → Type 0
Fresh seen hops = All (λ h. ¬ Member h seen) hops

Fresh-cons :
    (h : String) (seen hops : List String)
    → Fresh (h ∷ seen) hops ↔ ((¬ Member h hops) × Fresh seen hops)
Fresh-cons h seen [] = ground arith
Fresh-cons h seen (k ∷ hops) = ground (arith, Fresh-cons h seen hops)

Fresh-nil : (hops : List String) → Fresh [] hops
Fresh-nil [] = tt
Fresh-nil (h ∷ hops) = (λ m. m, Fresh-nil hops)

check_hops-none :
    (links : List WireGuardLink) (seen : List String) (prev : String) (hops : List String)
    → (check_hops links seen prev hops ≡ none)
      ↔ (Fresh seen hops × Distinct hops × Chained links prev hops)
unfolding check_hops
check_hops-none links seen prev [] = ground arith
check_hops-none links seen prev (h ∷ hops) = ground (
  arith,
  contains_iff seen h,
  has_direct_link_iff links prev h,
  Fresh-cons h seen hops,
  check_hops-none links (h ∷ seen) h hops,
)

-- `ValidatePath` accepts exactly the lists of at least two nodes in which no node occurs twice and
-- every two neighbours are joined by an enabled link.
pub validate_path-none_iff :
    (links : List WireGuardLink) (hops : List String)
    → (validate_path links hops ≡ none) ↔ ((2 ≤ length hops) × Distinct hops × IsChain links hops)
unfolding validate_path
validate_path-none_iff links [] = ground arith
validate_path-none_iff links (h ∷ []) = ground arith
validate_path-none_iff links (h ∷ k ∷ hops) = ground (
  arith,
  check_hops-none links (h ∷ []) h (k ∷ hops),
  Fresh-cons h [] (k ∷ hops),
  Fresh-nil (k ∷ hops),
)

check_hops-some :
    (links : List WireGuardLink) (seen : List String) (prev : String) (hops : List String)
    (e : AppError)
    → check_hops links seen prev hops ≡ some e
    → (e.code ≡ forwarding_loop) × (¬ (Fresh seen hops × Distinct hops))
      ⊎ (e.code ≡ no_link) × (¬ Chained links prev hops)
unfolding check_hops new_error
check_hops-some links seen prev [] e x = cc
check_hops-some links seen prev (h ∷ hops) e x = ground (
  arith,
  contains_iff seen h,
  has_direct_link_iff links prev h,
  Fresh-cons h seen hops,
  check_hops-some links (h ∷ seen) h hops e,
)

-- The error code of a refusal tells the truth: VALIDATION for fewer than two nodes,
-- FORWARDING_LOOP only where a node occurs twice, NO_LINK only where two neighbours are not joined.
pub validate_path-some :
    (links : List WireGuardLink) (hops : List String) (e : AppError)
    → validate_path links hops ≡ some e
    → (e.code ≡ validation) × (length hops < 2)
      ⊎ (e.code ≡ forwarding_loop) × (¬ Distinct hops)
      ⊎ (e.code ≡ no_link) × (¬ IsChain links hops)
unfolding validate_path new_error
validate_path-some links [] e x = ground arith
validate_path-some links (h ∷ []) e x = ground arith
validate_path-some links (h ∷ k ∷ hops) e x = ground (
  arith,
  check_hops-some links (h ∷ []) h (k ∷ hops) e,
  Fresh-cons h [] (k ∷ hops),
  Fresh-nil (k ∷ hops),
)
