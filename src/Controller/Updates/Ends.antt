-- ===== src/Controller/Updates/Ends.antt =====
-- A running job ends: the orchestrator's own steps and deadlines, with reports of agents between them.
use sd_wan_plus.Base.{
  ℕ, String, ◌≡◌, refl, sym, Bool, ◌⊎◌, inl, inr, subst, ap, Option-cases, none, List, [], ◌∷◌, ◌∙◌,
}
use sd_wan_plus.Core.Records.{UpdateTarget}
use sd_wan_plus.Controller.State.{Server}
use sd_wan_plus.Controller.Commands.{Report, handle_agent_update_report}
use sd_wan_plus.Controller.Updates.{turn, Turn, skip, not_staged, grant}
use sd_wan_plus.Controller.Updates.Run.{
  Pc, prefetching, installing, waiting, finished, Run, started, Step, report, fetched, pass, fail,
  allow, done, expire, last, Reach, next,
}
use sd_wan_plus.Controller.Updates.Safety.{Holds, view, Reach-Inv, begin_update-view}

module _ (job version : String) where
  -- A step that the orchestrator takes, and not an agent.
  unfoldable pub IsOwn : {r u : Run} → Step job version r u → Type 0
  IsOwn (report now x e) = ⊥
  IsOwn (fetched now h e) = Unit
  IsOwn (pass all t q h a e) = Unit
  IsOwn (fail now all t q h a e) = Unit
  IsOwn (allow all t q h a e) = Unit
  IsOwn (done all t q h a e) = Unit
  IsOwn (expire now all t q h e) = Unit
  IsOwn (last now error all h e) = Unit

  abbrev pub Own : Run → Run → Type 0
  Own r u = (st : Step job version r u) × IsOwn st

  -- Any number of reports of any agents.
  pub data Reports (r : Run) : Run → Type 0 where
    silence : Reports r r
    more :
        {u : Run}
        → Reports r u
        → (now : ℕ) (x : Report)
        → Reports r (record u { server = handle_agent_update_report now x u.server })

  -- The orchestrator is at its end with no job left in memory; or, whatever agents report before its
  -- next step, it can take a step, and whichever it takes, this holds again.
  pub data ComesToEnd : Run → Type 0 where
    at_end :
        (r : Run) (restart : Bool)
        → r.pc ≡ finished restart
        → r.server.active_update ≡ none
        → ComesToEnd r
    goes_on :
        (r : Run)
        → ((u : Run) → Reports r u → (v : Run) × Own u v)
        → ((u v : Run) → Reports r u → Own u v → ComesToEnd v)
        → ComesToEnd r

  Reports-pc : (r u : Run) → Reports r u → u.pc ≡ r.pc
  Reports-pc r u silence = refl
  Reports-pc r u (more {u = v} w now x) = Reports-pc r v w

  Reports-Reach : (o r u : Run) → Reach job version o r → Reports r u → Reach job version o u
  Reports-Reach o r u a silence = a
  Reports-Reach o r u a (more {u = v} w now x) = next (Reports-Reach o r v a w) (report now x refl)

  -- Where a step of the orchestrator leads.
  unfoldable Next : Pc → Pc → Type 0
  Next prefetching p = (all : List UpdateTarget) × (p ≡ installing all all)
  Next (installing all []) p = (restart : Bool) × (p ≡ finished restart)
  Next (installing all (t ∷ q)) p = (p ≡ installing all q) ⊎ (p ≡ waiting all t q)
  Next (waiting all t q) p = p ≡ installing all q
  Next (finished restart) p = ⊥

  Own-Next : (r u : Run) → Own r u → Next r.pc u.pc
  unfolding IsOwn Next
  Own-Next r u (report now x e, o) = absurd o
  Own-Next r u (fetched now h e, o) = subst (λ p. Next p u.pc) (sym h) (_, ap (λ k. k.pc) e)
  Own-Next r u (pass all t q h a e, o) = subst (λ p. Next p u.pc) (sym h) (inl (ap (λ k. k.pc) e))
  Own-Next r u (fail now all t q h a e, o) =
      subst (λ p. Next p u.pc) (sym h) (inl (ap (λ k. k.pc) e))
  Own-Next r u (allow all t q h a e, o) = subst (λ p. Next p u.pc) (sym h) (inr (ap (λ k. k.pc) e))
  Own-Next r u (done all t q h a e, o) = subst (λ p. Next p u.pc) (sym h) (ap (λ k. k.pc) e)
  Own-Next r u (expire now all t q h e, o) = subst (λ p. Next p u.pc) (sym h) (ap (λ k. k.pc) e)
  Own-Next r u (last now error all h e, o) = subst (λ p. Next p u.pc) (sym h) (_, ap (λ k. k.pc) e)

  Turn-cases : (a : Turn) → (a ≡ skip) ⊎ ((a ≡ not_staged) ⊎ (a ≡ grant))
  Turn-cases skip = inl refl
  Turn-cases not_staged = inr (inl refl)
  Turn-cases grant = inr (inr refl)

  installing-Own :
      (now : ℕ) (all q : List UpdateTarget) (r : Run)
      → r.pc ≡ installing all q
      → (v : Run) × Own r v
  unfolding IsOwn
  installing-Own now all [] r h = (_, (last now none all h refl, tt))
  installing-Own now all (t ∷ q) r h = elim (Turn-cases (turn r.server t)) [
    | inl e ↦ (_, (pass all t q h e refl, tt))
    | inr rest ↦ elim rest [
      | inl e ↦ (_, (fail now all t q h e refl, tt))
      | inr e ↦ (_, (allow all t q h e refl, tt))
    ]
  ]

view-none : (s : Server) → view s ≡ none → s.active_update ≡ none
view-none s h = elim (Option-cases s.active_update) [
  | inl e ↦ e
  | inr (a, e) ↦ absurd (cc (rw e at h))
]

module _ (job version : String) (now : ℕ) (ts : List UpdateTarget) (s : Server) where
  abbrev Reached : Run → Type 0
  Reached r = Reach job version (started job version now ts s) r

  -- Where the orchestrator is after reports and a step of its own.
  stepped :
      (r u v : Run) (p : Pc)
      → r.pc ≡ p
      → Reports job version r u
      → Own job version u v
      → Next job version p v.pc
  stepped r u v p h w o =
      subst (λ k. Next job version k v.pc) (Reports-pc job version r u w ∙ h)
        (Own-Next job version u v o)

  onward : (r u v : Run) → Reached r → Reports job version r u → Own job version u v → Reached v
  onward r u v a w (st, o) = next (Reports-Reach job version _ r u a w) st

  finished-ComesToEnd :
      (r : Run) (restart : Bool) → Reached r → r.pc ≡ finished restart → ComesToEnd job version r
  unfolding started
  finished-ComesToEnd r restart a h =
      let i =
        Reach-Inv job version (started job version now ts s) r a
          (begin_update-view now job version ts s) in
      at_end r restart h (view-none r.server (subst (λ p. Holds p (view r.server)) h i))

  waiting-ComesToEnd :
      (all : List UpdateTarget) (t : UpdateTarget) (q : List UpdateTarget)
      → ((v : Run) → Reached v → v.pc ≡ installing all q → ComesToEnd job version v)
      → (r : Run) → Reached r
      → r.pc ≡ waiting all t q
      → ComesToEnd job version r
  unfolding Next IsOwn
  waiting-ComesToEnd all t q k r a h =
      goes_on r (λ u w. (_, (expire now all t q (Reports-pc job version r u w ∙ h) refl, tt)))
        (λ u v w o. k v (onward r u v a w o) (stepped r u v _ h w o))

  installing-ComesToEnd :
      (all q : List UpdateTarget) (r : Run)
      → Reached r
      → r.pc ≡ installing all q
      → ComesToEnd job version r
  unfolding Next
  installing-ComesToEnd all [] r a h =
      goes_on r (λ u w. installing-Own job version now all [] u (Reports-pc job version r u w ∙ h))
        (λ u v w o.
          let (restart, e) = stepped r u v (installing all []) h w o in
          finished-ComesToEnd v restart (onward r u v a w o) e)
  installing-ComesToEnd all (t ∷ q) r a h =
      goes_on r
        (λ u w. installing-Own job version now all (t ∷ q) u (Reports-pc job version r u w ∙ h))
        (λ u v w o. elim (stepped r u v (installing all (t ∷ q)) h w o) [
          | inl e ↦ installing-ComesToEnd all q v (onward r u v a w o) e
          | inr e ↦
              waiting-ComesToEnd all t q (λ x. installing-ComesToEnd all q x) v (onward r u v a w o)
                e
        ])

  at-ComesToEnd : (r : Run) (p : Pc) → Reached r → r.pc ≡ p → ComesToEnd job version r
  unfolding Next IsOwn
  at-ComesToEnd r prefetching a h =
      goes_on r (λ u w. (_, (fetched now (Reports-pc job version r u w ∙ h) refl, tt)))
        (λ u v w o.
          let (all, e) = stepped r u v prefetching h w o in
          installing-ComesToEnd all all v (onward r u v a w o) e)
  at-ComesToEnd r (installing all q) a h = installing-ComesToEnd all q r a h
  at-ComesToEnd r (waiting all t q) a h =
      waiting-ComesToEnd all t q (installing-ComesToEnd all q) r a h
  at-ComesToEnd r (finished restart) a h = finished-ComesToEnd r restart a h

  -- From every state that a job reaches, the orchestrator comes to its end, with no job left in
  -- memory: whatever agents report before each of its steps, and whichever of its steps and deadlines
  -- it takes, it can always take the next one, and it takes only finitely many.
  pub started-ends : (r : Run) → Reached r → ComesToEnd job version r
  started-ends r a = at-ComesToEnd r r.pc a refl
