-- ===== src/Storage/Ports.antt =====
-- internal/storage/links.go: `AllocateWGPort`.
use sd_wan_plus.Base.{
  ℕ, zero, suc, ◌+◌, ◌-◌, ◌≤◌, ◌<◌, String, ◌==◌, ◌≡◌, subst, ◌↔◌, ◌⊎◌, inl, inr, Bool, true, false,
  ◌&&◌, ◌||◌, not, Option, some, none, List, [], ◌∷◌, ◌++◌, if◌then◌else◌, map, eqb, ltb, arith,
  Bool-cases, equal_fold,
}
use sd_wan_plus.Core.Types.{Node, NodeAddress}
use sd_wan_plus.Netutil.{Ip, is_public_dialable}
use sd_wan_plus.Storage.Tables.{Db, where_rows, get_node, update_node_ports, list_node_addresses}

-- used[p]
unfoldable pub port_used : List ℕ → ℕ → Bool
port_used [] p = false
port_used (q ∷ qs) p = let rest = port_used qs p in eqb q p || rest

-- The listeners of the node, by links and by endpoints.
unfoldable pub used_ports : Db → String → List ℕ
used_ports db node =
    map (λ l. l.listener_port) (where_rows (λ l. l.listener_node_id == node) db.links)
    ++ map (λ e. e.listen_port)
        (where_rows (λ e. e.node_id == node && ltb 0 e.listen_port) db.link_endpoints)

-- The loop over the pool, from `p`, for `count` ports.
unfoldable pub free_port : List ℕ → (count : ℕ) → ℕ → Option ℕ
free_port used zero p = none
free_port used (suc count) p =
    let rest = free_port used count (suc p) in if port_used used p then rest else some p

module _ (split_host_port : String → Option (String × String)) (parse_ip : String → Option Ip) where
  unfoldable pub any_dialable : List NodeAddress → Bool
  any_dialable [] = false
  any_dialable (a ∷ rest) =
      let later = any_dialable rest in
      if equal_fold a.address_type "lan"
      then later
      else if is_public_dialable split_host_port parse_ip a.address
      then true
      else later

  unfoldable pub node_has_public_dialable : Db → String → Bool
  node_has_public_dialable db node = any_dialable (list_node_addresses db node)

  -- The end of the pool that is used: a node that cannot be dialled keeps one port.
  unfoldable pub pool_end : Db → Node → ℕ
  pool_end db n =
      if ltb n.wg_port_range_start n.wg_port_range_end && not (node_has_public_dialable db n.id)
      then n.wg_port_range_start
      else n.wg_port_range_end

  -- The tables after the pool has been cut.
  unfoldable pub cut_pool : Db → (now : ℕ) → Node → Db
  cut_pool db now n =
      if ltb n.wg_port_range_start n.wg_port_range_end && not (node_has_public_dialable db n.id)
      then update_node_ports db now n.id n.node_service_port n.wg_port_range_start
          n.wg_port_range_start
      else db

  -- The port, `none` for an error, and the tables afterwards.
  unfoldable pub allocate_wg_port : Db → (now : ℕ) → String → Option ℕ × Db
  allocate_wg_port db now node = elim (get_node db node) [
    | none ↦ (none, db)
    | some n ↦ (
      free_port (used_ports db node) (suc (pool_end db n) - n.wg_port_range_start)
          n.wg_port_range_start,
      cut_pool db now n,
    )
  ]

abbrev pub InPorts : ℕ → List ℕ → Type 0
InPorts p [] = ⊥
InPorts p (q ∷ qs) = (q ≡ p) ⊎ InPorts p qs

port_used_iff : (qs : List ℕ) (p : ℕ) → (port_used qs p ≡ true) ↔ InPorts p qs
unfolding port_used
port_used_iff [] p = ground arith
port_used_iff (q ∷ qs) p = ground (arith, port_used_iff qs p)

-- What a search of the pool finds: the first port that is free.
abbrev pub FirstFree : List ℕ → (start stop : ℕ) → Option ℕ → Type 0
FirstFree used start stop none = (p : ℕ) → start ≤ p → p < stop → InPorts p used
FirstFree used start stop (some q) =
    (start ≤ q) × (q < stop) × (¬ InPorts q used) × ((p : ℕ) → start ≤ p → p < q → InPorts p used)

from_next :
    (used : List ℕ) (start stop : ℕ)
    → InPorts start used
    → ((p : ℕ) → suc start ≤ p → p < stop → InPorts p used)
    → (p : ℕ) → start ≤ p
    → p < stop
    → InPorts p used
from_next used start stop u f p a b = elim (split_le a) [
  | inl e ↦ subst (λ t. InPorts t used) e u
  | inr k ↦ f p k b
]
  where
    split_le : {m n : ℕ} → m ≤ n → (m ≡ n) ⊎ (suc m ≤ n)
    split_le {m} {n} h = ground arith

FirstFree-skip :
    (used : List ℕ) (start stop : ℕ) (r : Option ℕ)
    → InPorts start used
    → FirstFree used (suc start) stop r
    → FirstFree used start stop r
FirstFree-skip used start stop none u h = from_next used start stop u h
FirstFree-skip used start stop (some q) u (a, b, c, d) =
    (omega arith, b, c, from_next used start q u d)

FirstFree-none : (used : List ℕ) (start stop : ℕ) → stop ≤ start → FirstFree used start stop none
FirstFree-none used start stop h p a b = absurd (omega arith)

free_port-FirstFree :
    (used : List ℕ) (count start : ℕ)
    → FirstFree used start (start + count) (free_port used count start)
unfolding free_port
free_port-FirstFree used zero start = FirstFree-none used start (start + 0) (omega arith)
free_port-FirstFree used (suc count) start = elim (Bool-cases (port_used used start)) [
  | inl e ↦ rw e (
      FirstFree-skip used start (start + suc count) (free_port used count (suc start))
        ((port_used_iff used start).0 e)
        (subst (λ s. FirstFree used (suc start) s (free_port used count (suc start))) next
          (free_port-FirstFree used count (suc start))))
  | inr e ↦ rw e (
    omega arith,
    omega arith,
    ground (arith, port_used_iff used start),
    λ p a b. absurd (omega arith),
  )
]
  where
    next : suc start + count ≡ start + suc count
    next = omega arith

FirstFree-pool :
    (used : List ℕ) (start stop : ℕ) (r : Option ℕ)
    → FirstFree used start (start + (stop - start)) r
    → FirstFree used start stop r
FirstFree-pool used start stop none h = λ p a b. h p a (omega arith)
FirstFree-pool used start stop (some q) (a, b, c, d) = (a, omega arith, c, d)

-- For a node that exists, AllocateWGPort returns the first port of its pool on which the node does not
-- listen, by any link or endpoint, and fails exactly when it listens on all of them. The pool of a
-- node that cannot be dialled is its first port.
pub allocate_wg_port-FirstFree :
    (split_host_port : String → Option (String × String)) (parse_ip : String → Option Ip) (db : Db)
    (now : ℕ) (node : String) (n : Node)
    → get_node db node ≡ some n
    → FirstFree
        (used_ports db node)
        n.wg_port_range_start
        (suc (pool_end split_host_port parse_ip db n))
        (allocate_wg_port split_host_port parse_ip db now node).0
unfolding allocate_wg_port
allocate_wg_port-FirstFree split_host_port parse_ip db now node n h =
    rw (h, allocate_wg_port)
      (FirstFree-pool (used_ports db node) n.wg_port_range_start
        (suc (pool_end split_host_port parse_ip db n)) _
        (free_port-FirstFree (used_ports db node) _ n.wg_port_range_start))
