-- ===== src/Controller/Policies/Saved.antt =====
-- The hops that handleCreatePolicy saves, as the statements that list them see them.
use sd_wan_plus.Base.{
  ℕ, suc, ◌≤◌, String, ◌==◌, Bool, ==-self, ◌≡◌, refl, ap, ◌∙◌, true, false, List, [], ◌∷◌, ◌++◌,
  append_assoc, append-nil, leb, All, Ordered, map, order_by-Ordered, arith,
}
use sd_wan_plus.Core.Records.{TrafficPolicyPathHop}
use sd_wan_plus.Storage.Rows.{where_rows-append, where_rows-none, where_rows-all}
use sd_wan_plus.Storage.Policies.{PolicyTables, save_policy_hop, list_policy_hops}
use sd_wan_plus.Controller.Policies.{save_hops}

module _ (ids : ℕ → String) (policy : String) where
  -- The rows of the hops.
  abbrev pub rows : ℕ → List String → List TrafficPolicyPathHop
  rows i [] = []
  rows i (h ∷ hs) =
      record { id = ids i; policy_id = policy; hop_order = i; node_id = h } ∷ rows (suc i) hs

  pub save_hops-rows :
      (known : String → Bool) (i : ℕ) (hs : List String) (t : PolicyTables)
      → All (λ h. known h ≡ true) hs
      → save_hops known ids policy i hs t ≡ record t { hops = t.hops ++ rows i hs }
  unfolding save_hops save_policy_hop
  save_hops-rows known i [] t k = rw append-nil refl
  save_hops-rows known i (h ∷ hs) t k = rw (k.0) (
      save_hops-rows known (suc i) hs
        (record t {
          hops =
              t.hops ++ record { id = ids i; policy_id = policy; hop_order = i; node_id = h } ∷ [];
        })
        k.1
      ∙ ap (λ hs. record t { hops = hs }) (append_assoc t.hops _ (rows (suc i) hs)))

  later : (i j : ℕ) (hs : List String) → i ≤ j → All (λ r. leb i r.hop_order ≡ true) (rows j hs)
  later i j [] le = tt
  later i j (h ∷ hs) le = (ground arith, later i (suc j) hs (omega arith))

  pub rows-Ordered :
      (i : ℕ) (hs : List String) → Ordered (λ g h. leb g.hop_order h.hop_order) (rows i hs)
  rows-Ordered i [] = tt
  rows-Ordered i (h ∷ hs) = (later i (suc i) hs (omega arith), rows-Ordered (suc i) hs)

  pub rows-policy :
      (i : ℕ) (hs : List String) → All (λ r. (r.policy_id == policy) ≡ true) (rows i hs)
  rows-policy i [] = tt
  rows-policy i (h ∷ hs) = (==-self policy, rows-policy (suc i) hs)

  pub map-rows : (i : ℕ) (hs : List String) → map (λ r. r.node_id) (rows i hs) ≡ hs
  map-rows i [] = refl
  map-rows i (h ∷ hs) = ap (λ t. h ∷ t) (map-rows (suc i) hs)

  -- The hops that are listed are those saved, where no hop had the policy's id before.
  pub list_policy_hops-saved :
      (t : PolicyTables) (hs : List String)
      → All (λ h. (h.policy_id == policy) ≡ false) t.hops
      → list_policy_hops (record t { hops = t.hops ++ rows 0 hs }) policy ≡ rows 0 hs
  unfolding list_policy_hops
  list_policy_hops-saved t hs fresh =
      rw
        (
          where_rows-append (λ h. h.policy_id == policy) t.hops (rows 0 hs),
          where_rows-none (λ h. h.policy_id == policy) t.hops fresh,
          where_rows-all (λ h. h.policy_id == policy) (rows 0 hs) (rows-policy 0 hs),
        )
        (order_by-Ordered (λ g h. leb g.hop_order h.hop_order) (rows 0 hs) (rows-Ordered 0 hs))
