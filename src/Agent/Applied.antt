-- ===== src/Agent/Applied.antt =====
-- What an agent reports as active, and the keys that it fills in.
use sd_wan_plus.Base.{
  String, ◌==◌, ==-false, ◌≡◌, ◌≢◌, refl, ap, ◌∙◌, ◌⊎◌, inl, inr, true, false, Bool-cases, Option,
  none, some, List, [], ◌∷◌, if◌then◌else◌, map, trim_space,
}
use sd_wan_plus.Routing.Types.{NodeDesiredState, WireGuardLinkCfg}
use sd_wan_plus.Netd.Server.{Request, Response, handle, activate, rollback, verify}
use sd_wan_plus.Netd.Server
use sd_wan_plus.Agent.{
  to_int64, Agent, Deliveries, Delivery, answered, lost, reply_lost, inject_link, inject_links,
  inject_local_wg_key, call, settle, apply_state, pull_and_apply, request,
}
use sd_wan_plus.Agent

-- Links without a key of their own get the local one.
abbrev pub fill : String → WireGuardLinkCfg → WireGuardLinkCfg
fill key l = if trim_space l.node_private_key == "" then record l { node_private_key = key } else l

inject_link-fill :
    (key : String) (l : WireGuardLinkCfg) → key ≢ "" → inject_link key l ≡ (fill key l, key)
unfolding inject_link
inject_link-fill key l h =
    let k : (key == "") ≡ false = ==-false h in
    elim (Bool-cases (trim_space l.node_private_key == "")) [
      | inl e ↦ rw (k, e) refl
      | inr e ↦ rw (k, e) refl
    ]

-- With a local key, injectLocalWGKey fills it into exactly the links whose key is blank, and the local
-- key stays.
pub inject_links-fill :
    (key : String) (ls : List WireGuardLinkCfg)
    → key ≢ ""
    → inject_links key ls ≡ (map (fill key) ls, key)
unfolding inject_links
inject_links-fill key [] h = refl
inject_links-fill key (l ∷ ls) h = rw (inject_link-fill key l h, inject_links-fill key ls h) refl

module _ (apply : NodeDesiredState → Option String) where
  activated :
      (s : Server.Server) (st : NodeDesiredState) (o : Option String)
      → (Server.activate_state apply s st o).0.ok ≡ true
      → (Server.activate_state apply s st o).1.last_good ≡ some st
  unfolding Server.activate_state
  activated s st none h = refl
  activated s st (some e) h = cc

  call-activate :
      (d : Delivery) (s : Server.Server) (st : NodeDesiredState)
      → (call apply d s (request "activate" (some st))).0 ≡ true
      → (call apply d s (request "activate" (some st))).1.last_good ≡ some st
  unfolding call handle activate
  call-activate answered s st h = activated s st (apply st) h
  call-activate lost s st h = cc
  call-activate reply_lost s st h = cc

  -- The other requests leave the daemon as it is.
  call-verify :
      (d : Delivery) (s : Server.Server) (st : Option NodeDesiredState)
      → (call apply d s (request "verify" st)).1 ≡ s
  unfolding call handle
  call-verify answered s st = refl
  call-verify lost s st = refl
  call-verify reply_lost s st = refl

  call-rollback :
      (d : Delivery) (s : Server.Server) → (call apply d s (request "rollback" none)).1 ≡ s
  unfolding call handle
  call-rollback answered s = refl
  call-rollback lost s = refl
  call-rollback reply_lost s = refl

  -- What a tick has done to the generation that the agent reports.
  abbrev pub Reported : Agent → NodeDesiredState → Agent → Type 0
  Reported a st b =
      (b.active_gen ≡ a.active_gen)
      ⊎ ((b.active_gen ≡ some (to_int64 st.generation)) × (b.netd.last_good ≡ some st))

  settle-Reported :
      (d : Deliveries) (st : NodeDesiredState) (a : Agent)
      → a.netd.last_good ≡ some st
      → Reported a st (settle apply d st a)
  unfolding settle
  settle-Reported d st a h =
      elim (Bool-cases (call apply d.verify a.netd (request "verify" (some st))).0) [
        | inl e ↦
            rw e (inr (refl, ap (λ s. s.last_good) (call-verify d.verify a.netd (some st)) ∙ h))
        | inr e ↦ rw e (inl refl)
      ]

  activate_state-Reported :
      (d : Deliveries) (st : NodeDesiredState) (a : Agent)
      → Reported a st (Agent.activate_state apply d st a)
  unfolding Agent.activate_state
  activate_state-Reported d st a =
      elim (Bool-cases (call apply d.activate a.netd (request "activate" (some st))).0) [
        | inl e ↦ rw e (settle-Reported d st _ (call-activate d.activate a.netd st e))
        | inr e ↦ rw e (inl refl)
      ]

  apply_state-Reported :
      (d : Deliveries) (st : NodeDesiredState) (a : Agent)
      → Reported a st (apply_state apply d st a)
  unfolding apply_state
  apply_state-Reported d st a =
      elim (Bool-cases (call apply d.prepare a.netd (request "prepare" (some st))).0) [
        | inl e ↦ rw e (activate_state-Reported d st _)
        | inr e ↦ rw e (inl refl)
      ]

  -- However the calls of the daemon go, a tick leaves the generation that the agent reports, or sets it
  -- to that of the state it was served, and then this state, with the local key filled in, is the
  -- last one that the daemon has activated.
  pub pull_and_apply-Reported :
      (d : Deliveries) (st : NodeDesiredState) (a : Agent)
      → Reported a (inject_local_wg_key a.key_file st).0 (pull_and_apply apply d (some st) a)
  unfolding pull_and_apply
  pull_and_apply-Reported d st a = apply_state-Reported d (inject_local_wg_key a.key_file st).0 _
