-- ===== src/Storage/Depth.antt =====
-- internal/storage/nodes.go: `NodeDepth`.
use sd_wan_plus.Base.{
  ℕ, zero, suc, ◌+◌, ◌≤◌, String, ◌≡◌, refl, sym, ap, ◌∙◌, subst, ◌↔◌, inl, inr, some, none,
  Option-cases, arith,
}
use sd_wan_plus.Core.Types.{Node}
use sd_wan_plus.Storage.Tables.{Db, get_node}

-- The results of NodeDepth: a depth, a node that is not there, or "control tree cycle detected".
pub data Depth : Type 0 where
  depth : ℕ → Depth
  no_row : Depth
  cycle_detected : Depth

-- The loop at depth `d`, with `room` for more parents: at most 1000 are followed.
unfoldable pub depth_from : Db → (room : ℕ) → ℕ → String → Depth
depth_from db zero d id = elim (get_node db id) [
  | none ↦ no_row
  | some n ↦ elim n.control_parent_id [ none ↦ depth d | some p ↦ cycle_detected ]
]
depth_from db (suc room) d id = elim (get_node db id) [
  | none ↦ no_row
  | some n ↦ elim n.control_parent_id [ none ↦ depth d | some p ↦ depth_from db room (suc d) p ]
]

unfoldable pub node_depth : Db → String → Depth
node_depth db id = depth_from db 1000 0 id

-- The node is `k` levels below a node without a parent.
pub data Below (db : Db) : String → ℕ → Type 0 where
  top :
      {id : String} {n : Node}
      → get_node db id ≡ some n
      → n.control_parent_id ≡ none
      → Below db id 0
  under :
      {id p : String} {n : Node} {k : ℕ}
      → get_node db id ≡ some n
      → n.control_parent_id ≡ some p
      → Below db p k
      → Below db id (suc k)

Below-depth_from :
    (db : Db) (room d k : ℕ) (id : String)
    → Below db id k
    → k ≤ room
    → depth_from db room d id ≡ depth (d + k)
unfolding depth_from
Below-depth_from db zero d zero id (top {n = n} g e) h =
    rw (g, depth_from, e) (ap depth (omega arith))
Below-depth_from db zero d (suc k) id b h = absurd (omega arith)
Below-depth_from db (suc room) d zero id (top {n = n} g e) h =
    rw (g, depth_from, e) (ap depth (omega arith))
Below-depth_from db (suc room) d (suc k) id (under {p = p} g e b) h =
    rw (g, depth_from, e)
      (Below-depth_from db room (suc d) k p b (omega arith) ∙ ap depth (omega arith))

depth_inj : {a b : ℕ} → depth a ≡ depth b → a ≡ b
depth_inj h = cc

module _ (db : Db) (d : ℕ) (id : String) where
  depth_from-lost : (room : ℕ) → get_node db id ≡ none → depth_from db room d id ≡ no_row
  unfolding depth_from
  depth_from-lost zero g = rw (g, depth_from) refl
  depth_from-lost (suc room) g = rw (g, depth_from) refl

  depth_from-top :
      {n : Node} (room : ℕ)
      → get_node db id ≡ some n
      → n.control_parent_id ≡ none
      → depth_from db room d id ≡ depth d
  unfolding depth_from
  depth_from-top zero g e = rw (g, depth_from, e) refl
  depth_from-top (suc room) g e = rw (g, depth_from, e) refl

  depth_from-full :
      {n : Node} {p : String}
      → get_node db id ≡ some n
      → n.control_parent_id ≡ some p
      → depth_from db zero d id ≡ cycle_detected
  unfolding depth_from
  depth_from-full g e = rw (g, depth_from, e) refl

  depth_from-up :
      {n : Node} {p : String} (room : ℕ)
      → get_node db id ≡ some n
      → n.control_parent_id ≡ some p
      → depth_from db (suc room) d id ≡ depth_from db room (suc d) p
  unfolding depth_from
  depth_from-up room g e = rw (g, depth_from, e) refl

-- What a depth tells of the node, at a row of the table.
depth_from-Below :
    (db : Db) (room d m : ℕ) (id : String)
    → depth_from db room d id ≡ depth m
    → (k : ℕ) × Below db id k × (m ≡ d + k) × (k ≤ room)
depth_from-Below db zero d m id h = elim (Option-cases (get_node db id)) [
  | inl g ↦ absurd (cc (sym (depth_from-lost db d id zero g) ∙ h))
  | inr (n, g) ↦ elim (Option-cases n.control_parent_id) [
    | inl e ↦ (
      0,
      top g e,
      omega (arith, depth_inj (sym (depth_from-top db d id zero g e) ∙ h)),
      omega arith,
    )
    | inr (p, e) ↦ absurd (cc (sym (depth_from-full db d id g e) ∙ h))
  ]
]
depth_from-Below db (suc room) d m id h = elim (Option-cases (get_node db id)) [
  | inl g ↦ absurd (cc (sym (depth_from-lost db d id (suc room) g) ∙ h))
  | inr (n, g) ↦ elim (Option-cases n.control_parent_id) [
    | inl e ↦ (
      0,
      top g e,
      omega (arith, depth_inj (sym (depth_from-top db d id (suc room) g e) ∙ h)),
      omega arith,
    )
    | inr (p, e) ↦
        let (k, b, q, le) =
          depth_from-Below db room (suc d) m p (sym (depth_from-up db d id room g e) ∙ h) in
        (suc k, under g e b, omega arith, omega arith)
  ]
]

-- NodeDepth returns the number of levels above the node, where they are at most 1000; it returns no
-- depth for a node whose parents lead into a cycle, to a row that is missing, or further than that.
pub node_depth_iff :
    (db : Db) (id : String) (k : ℕ) → (node_depth db id ≡ depth k) ↔ (Below db id k × (k ≤ 1000))
unfolding node_depth
node_depth_iff db id k = (
  λ h.
      let (j, b, e, le) = depth_from-Below db 1000 0 k id h in
      (subst (Below db id) (omega (arith, e)) b, omega (arith, e, le)),
  λ h. Below-depth_from db 1000 0 k id h.0 h.1 ∙ ap depth (omega arith),
)
