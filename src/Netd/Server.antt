-- ===== src/Netd/Server.antt =====
-- internal/netd/netd.go: the requests that the daemon answers. What the commands and the WireGuard
-- devices do is a parameter: `apply` returns the error's text where it fails.
use sd_wan_plus.Base.{
  String, ◌==◌, eq_iff, ==-apart, ◌≡◌, refl, inl, inr, Bool, true, false, Option, some, none,
  Option-cases, Bool-cases, List, [], ◌∷◌, if◌then◌else◌, arith, ap, ◌∙◌,
}
use sd_wan_plus.Routing.Types.{NodeDesiredState}

pub record Server : Type 0 where
  pub socket : String
  pub last_good : Option NodeDesiredState

pub record Request : Type 0 where
  pub action : String
  pub state : Option NodeDesiredState

pub record Response : Type 0 where
  pub ok : Bool
  pub message : String
  pub error : String

abbrev pub success : String → Response
success m = record { ok = true; message = m; error = "" }

abbrev pub failure : String → Response
failure e = record { ok = false; message = ""; error = e }

unfoldable pub new : String → Server
new socket = record {
  socket = if socket == "" then "/run/pathweaver/netd.sock" else socket;
  last_good = none;
}

unfoldable pub prepare : Option NodeDesiredState → Response
prepare none = failure "missing state"
prepare (some st) =
    if st.config_hash == ""
    then failure "missing config_hash"
    else if st.overlay_identity.dummy_interface == ""
    then failure "missing overlay identity"
    else success "prepared"

unfoldable pub verify : Option NodeDesiredState → Response
verify none = failure "missing state"
verify (some st) = success "verified"

-- What the machine is told: the states that were applied, the last one first, a failure included.
abbrev pub Applied : Type 0
Applied = List NodeDesiredState

module _ (apply : NodeDesiredState → Option String) where
  unfoldable pub activate_state : Server → NodeDesiredState → Option String → Response × Server
  activate_state s st none = (success "activated", record s { last_good = some st })
  activate_state s st (some e) = (failure e, s)

  unfoldable pub activate : Server → Option NodeDesiredState → Response × Server
  activate s none = (failure "missing state", s)
  activate s (some st) = activate_state s st (apply st)

  unfoldable pub rolled_back : Option String → Response
  rolled_back none = success "rolled back"
  rolled_back (some e) = failure e

  unfoldable pub rollback : Server → Response
  rollback s = elim s.last_good [
    | none ↦ failure "no last known good"
    | some st ↦ rolled_back (apply st)
  ]

  unfoldable pub handle : Server → Request → Response × Server
  handle s r =
      if r.action == "prepare"
      then (prepare r.state, s)
      else if r.action == "activate"
      then activate s r.state
      else if r.action == "verify"
      then (verify r.state, s)
      else if r.action == "rollback"
      then (rollback s, s)
      else if r.action == "status"
      then (success "ok", s)
      else (failure "unknown action", s)

  unfoldable pub handle_all : Server → List Request → Server
  handle_all s [] = s
  handle_all s (r ∷ rs) = handle_all (handle s r).1 rs

  -- The state of the last activation that succeeded.
  abbrev pub latest : Option NodeDesiredState → List Request → Option NodeDesiredState
  latest good [] = good
  latest good (r ∷ rs) =
      latest
        (if r.action == "activate"
          then elim r.state [
            | none ↦ good
            | some st ↦ elim (apply st) [ none ↦ some st | some e ↦ good ]
          ]
          else good)
        rs

  unprepared : (action : String) → (action == "activate") ≡ true → (action == "prepare") ≡ false
  unprepared action e =
      ground (
        arith,
        eq_iff action "prepare",
        eq_iff action "activate",
        ==-apart "prepare" "activate" refl,
      )

  handle-last_good :
      (s : Server) (r : Request) → (handle s r).1.last_good ≡ latest s.last_good (r ∷ [])
  unfolding handle activate activate_state
  handle-last_good s r = elim (Bool-cases (r.action == "activate")) [
    | inl e ↦
        let prep = unprepared r.action e in
        elim (Option-cases r.state) [
          | inl n ↦ ground (arith, n)
          | inr (st, n) ↦ elim (Option-cases (apply st)) [
            | inl a ↦ rw (handle, prep, e, n, activate, a, activate_state) refl
            | inr (x, a) ↦ rw (handle, prep, e, n, activate, a, activate_state) refl
          ]
        ]
    | inr e ↦ ground arith
  ]

  -- Whatever is asked of it, the daemon's last known good state is that of the last activation which
  -- succeeded, or the one it began with where there is none; no other request changes it.
  pub handle_all-last_good :
      (s : Server) (rs : List Request) → (handle_all s rs).last_good ≡ latest s.last_good rs
  unfolding handle_all
  handle_all-last_good s [] = refl
  handle_all-last_good s (r ∷ rs) =
      handle_all-last_good (handle s r).1 rs ∙ ap (λ g. latest g rs) (handle-last_good s r)
