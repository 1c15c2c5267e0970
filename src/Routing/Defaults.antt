-- ===== src/Routing/Defaults.antt =====
-- The defaults that `Compile` fills in for an interface, and the hash that `Seal` writes.
use sd_wan_plus.Base.{String, ◌≡◌, ap, ◌≢◌, true, Option, some, none, Option-cases, inl, inr, subst}
use sd_wan_plus.Routing.Types.{WireGuardLinkCfg, NodeDesiredState, compute_hash, seal}

-- What an interface needs to hold a tunnel up: an initiator has an endpoint to dial, and who dials
-- keeps the tunnel alive.
pub record Dialling (c : WireGuardLinkCfg) : Type 0 where
  pub endpoint : c.is_initiator ≡ true → c.peer_endpoint ≢ ""
  pub keepalive : c.peer_endpoint ≢ "" → c.persistent_keepalive ≢ 0

-- The hash that Seal writes is the one that ComputeHash gives for the sealed state, and sealing a
-- sealed state again changes nothing.
pub seal-compute_hash :
    (sha256_of_json : NodeDesiredState → Option String) (s t : NodeDesiredState)
    → seal sha256_of_json s ≡ some t
    → (compute_hash sha256_of_json t ≡ some t.config_hash) × (seal sha256_of_json t ≡ some t)
unfolding seal compute_hash
seal-compute_hash sha256_of_json s t e =
    elim (Option-cases (sha256_of_json (record s { config_hash = "" }))) [
      | inl h ↦ absurd (none-ne-some (subst (λ o. sealed o ≡ some t) h e))
      | inr (h, x) ↦
          let y : record s { config_hash = h } ≡ t =
            some_inj (subst (λ o. sealed o ≡ some t) x e) in
          subst
            (λ u.
              (compute_hash sha256_of_json u ≡ some u.config_hash)
              × (seal sha256_of_json u ≡ some u))
            y (x, ap (λ o. elim o [ none ↦ none | some k ↦ some (record s { config_hash = k }) ]) x)
    ]
  where
    sealed : Option String → Option NodeDesiredState
    sealed o = elim o [ none ↦ none | some h ↦ some (record s { config_hash = h }) ]

    none-ne-some : {A : Type 0} {a : A} → ¬ (none ≡ some a)
    none-ne-some h = cc

    some_inj : {A : Type 0} {a b : A} → some a ≡ some b → a ≡ b
    some_inj h = cc
