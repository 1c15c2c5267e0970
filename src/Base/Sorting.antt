-- ===== src/Base/Sorting.antt =====
-- sort.Strings, as an insertion sort: a list of texts has one sorted order.
use Prim.Native.Nat.{Ordering}
use Prim.Native.String.{String, compare}
use mathlib.Core.Logic.{◌↔◌}
use mathlib.Core.Bool.{Bool, true, false}
use mathlib.Core.List.{List, [], ◌∷◌}
use native.Mathlib.Omega.{arith}
use sd_wan_plus.Base.Tests.{if◌then◌else◌}
use sd_wan_plus.Base.Text.{Member}

-- Less or equal in Go's order of strings, by bytes, which for UTF-8 is that by characters.
unfoldable pub str_le : String → String → Bool
str_le s t = elim (compare s t) [ Ordering.gt ↦ false | _ ↦ true ]

unfoldable pub insert_sorted : String → List String → List String
insert_sorted s [] = s ∷ []
insert_sorted s (t ∷ ts) =
    let rest = insert_sorted s ts in if str_le s t then s ∷ t ∷ ts else t ∷ rest

-- sort.Strings
unfoldable pub sort_strings : List String → List String
sort_strings [] = []
sort_strings (s ∷ ss) = insert_sorted s (sort_strings ss)

Member-insert_sorted :
    (x s : String) (ts : List String) → Member x (insert_sorted s ts) ↔ Member x (s ∷ ts)
unfolding insert_sorted
Member-insert_sorted x s [] = ground arith
Member-insert_sorted x s (t ∷ ts) = ground (arith, Member-insert_sorted x s ts)

-- Sorting keeps the items.
pub Member-sort_strings : (x : String) (ss : List String) → Member x (sort_strings ss) ↔ Member x ss
unfolding sort_strings
Member-sort_strings x [] = ground arith
Member-sort_strings x (s ∷ ss) =
    ground (arith, Member-insert_sorted x s (sort_strings ss), Member-sort_strings x ss)
