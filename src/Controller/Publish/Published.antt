-- ===== src/Controller/Publish/Published.antt =====
-- What agents are served after publishConfig.
use sd_wan_plus.Base.{
  ℕ, ◌<◌, String, ==-cases, ◌≡◌, refl, sym, ap, ◌∙◌, subst, ◌⊎◌, inl, inr, Option, some, none,
  Option-cases, List, [], ◌∷◌, ◌++◌, All, All-mono, Any, Dict, lookup,
}
use sd_wan_plus.Core.Types.{Node, ConfigRevision, WireGuardLink, WireGuardLinkEndpoint}
use sd_wan_plus.Netutil.{Ip}
use sd_wan_plus.Routing.Types.{NodeDesiredState, compute_hash, seal}
use sd_wan_plus.Routing.Compile.{compile, compile_from, node_state}
use sd_wan_plus.Storage.Revisions.{create_config_revision, next_generation, next_generation-above}
use sd_wan_plus.Storage.Links.{list_links, list_link_endpoints}
use sd_wan_plus.Storage.Tables.{Db, list_nodes}
use sd_wan_plus.Storage.Rows.{some_inj}
use sd_wan_plus.Controller.State.{Server, Call, ok}
use sd_wan_plus.Controller.Repair.Kept.{Apart, repair_link_endpoints-kept}
use sd_wan_plus.Controller.Publish.{
  store_state, store_states, revision_of, compile_db, repaired, publish_config,
  handle_agent_desired,
}

-- A state that is sealed for the node and the generation.
pub record IsFor (sha256_of_json : NodeDesiredState → Option String) (generation : ℕ) (id : String)
    (st : NodeDesiredState) : Type 0 where
  pub node : st.node_id ≡ id
  pub current : st.generation ≡ generation
  pub hashed : compute_hash sha256_of_json st ≡ some st.config_hash

-- Every entry is a state for its key.
abbrev AllFor : (NodeDesiredState → Option String) → ℕ → Dict NodeDesiredState → Type 0
AllFor sha g d = All (λ e. IsFor sha g e.0 e.1) d

AllFor-lookup :
    (sha : NodeDesiredState → Option String) (g : ℕ) (id : String) (d : Dict NodeDesiredState)
    (st : NodeDesiredState)
    → AllFor sha g d
    → lookup id d ≡ some st
    → IsFor sha g id st
AllFor-lookup sha g id [] st h e = cc
AllFor-lookup sha g id ((k, x) ∷ d) st h e = elim (==-cases k id) [
  | inl (p, q) ↦
      subst (λ t. IsFor sha g id t) (some_inj (rw q at e)) (subst (λ t. IsFor sha g t x) p h.0)
  | inr (p, q) ↦ AllFor-lookup sha g id d st h.1 (rw q at e)
]

abbrev HasKey : String → Dict NodeDesiredState → Type 0
HasKey id d = Any (λ e. e.0 ≡ id) d

HasKey-lookup :
    (id : String) (d : Dict NodeDesiredState)
    → HasKey id d
    → (st : NodeDesiredState) × (lookup id d ≡ some st)
HasKey-lookup id [] h = absurd h
HasKey-lookup id ((k, x) ∷ d) h = elim (==-cases k id) [
  | inl (p, q) ↦ (x, rw q refl)
  | inr (p, q) ↦ elim h [
    | inl e ↦ absurd (p e)
    | inr t ↦ let (st, e) = HasKey-lookup id d t in (st, rw q e)
  ]
]

seal-some :
    (sha : NodeDesiredState → Option String) (s st : NodeDesiredState)
    → seal sha s ≡ some st
    → (d : String) × (compute_hash sha s ≡ some d) × (record s { config_hash = d } ≡ st)
unfolding seal
seal-some sha s st h = elim (Option-cases (compute_hash sha s)) [
  | inl e ↦ absurd (none_some (sym (opened_none e) ∙ h))
  | inr (d, e) ↦ (d, e, some_inj (sym (opened_some d e) ∙ h))
]
  where
    none_some : {x : NodeDesiredState} → none ≡ some x → ⊥
    none_some p = cc

    opened_none : compute_hash sha s ≡ none → seal sha s ≡ none
    opened_none e = rw (e, seal) refl

    opened_some :
        (d : String)
        → compute_hash sha s ≡ some d
        → seal sha s ≡ some (record s { config_hash = d })
    opened_some d e = rw (e, seal) refl

module _ (split_host_port : String → Option (String × String)) (parse_ip : String → Option Ip)
    (sha256_of_json : NodeDesiredState → Option String) (decrypt : String → Option String)
    (eps : String → Option (List WireGuardLinkEndpoint)) (nodes : List Node)
    (links : List WireGuardLink) (generation : ℕ) where
  abbrev state_of : Node → NodeDesiredState
  state_of = node_state split_host_port parse_ip sha256_of_json decrypt eps nodes links generation

  sealed-IsFor :
      (n : Node) (st : NodeDesiredState)
      → seal sha256_of_json (state_of n) ≡ some st
      → IsFor sha256_of_json generation n.id st
  unfolding compute_hash node_state
  sealed-IsFor n st h =
      let (d, e, q) = seal-some sha256_of_json (state_of n) st h in
      subst (IsFor sha256_of_json generation n.id) q
        (record { node = refl; current = refl; hashed = e })

  compile_from-stop :
      (out : Dict NodeDesiredState) (n : Node) (ns : List Node)
      → seal sha256_of_json (state_of n) ≡ none
      → compile_from split_host_port parse_ip sha256_of_json decrypt eps nodes links generation out
          (n ∷ ns)
        ≡ none
  unfolding compile_from
  compile_from-stop out n ns e = rw (e, compile_from) refl

  compile_from-go :
      (out : Dict NodeDesiredState) (n : Node) (ns : List Node) (st : NodeDesiredState)
      → seal sha256_of_json (state_of n) ≡ some st
      → compile_from split_host_port parse_ip sha256_of_json decrypt eps nodes links generation out
          (n ∷ ns)
        ≡ compile_from split_host_port parse_ip sha256_of_json decrypt eps nodes links generation
            ((n.id, st) ∷ out)
            ns
  unfolding compile_from
  compile_from-go out n ns st e = rw (e, compile_from) refl

  -- What the loop of Compile adds.
  compile_from-AllFor :
      (out : Dict NodeDesiredState) (ns : List Node) (states : Dict NodeDesiredState)
      → compile_from split_host_port parse_ip sha256_of_json decrypt eps nodes links generation out
          ns
        ≡ some states
      → AllFor sha256_of_json generation out
      → AllFor sha256_of_json generation states
        × ((id : String) → HasKey id out ⊎ Any (λ n. n.id ≡ id) ns → HasKey id states)
  unfolding compile_from
  compile_from-AllFor out [] states h a = (
    subst (AllFor sha256_of_json generation) (some_inj h) a,
    λ id k. elim k [ inl x ↦ subst (HasKey id) (some_inj h) x | inr y ↦ absurd y ],
  )
  compile_from-AllFor out (n ∷ ns) states h a =
      elim (Option-cases (seal sha256_of_json (state_of n))) [
        | inl e ↦ absurd (none_some (sym (compile_from-stop out n ns e) ∙ h))
        | inr (st, e) ↦
            let (x, y) =
              compile_from-AllFor ((n.id, st) ∷ out) ns states
                (sym (compile_from-go out n ns st e) ∙ h) (sealed-IsFor n st e, a) in
            (x, λ id k. y id (moved st id k))
      ]
    where
      none_some : {x : Dict NodeDesiredState} → none ≡ some x → ⊥
      none_some p = cc

      moved :
          (st : NodeDesiredState) (id : String)
          → HasKey id out ⊎ ((n.id ≡ id) ⊎ Any (λ m. m.id ≡ id) ns)
          → HasKey id ((n.id, st) ∷ out) ⊎ Any (λ m. m.id ≡ id) ns
      moved st id (inl k) = inl (inr k)
      moved st id (inr (inl e)) = inl (inl e)
      moved st id (inr (inr k)) = inr k

store_states-desired :
    (c : Call) (rev : String) (states : Dict NodeDesiredState) (s : Server)
    → ((store_states c rev states s).desired ≡ states ++ s.desired)
      × ((store_states c rev states s).revisions ≡ s.revisions)
      × ((store_states c rev states s).db ≡ s.db)
unfolding store_states store_state
store_states-desired c rev [] s = (refl, refl, refl)
store_states-desired c rev ((id, st) ∷ rest) s =
    let (a, b, d) = store_states-desired c rev rest s in (ap (λ t. (id, st) ∷ t) a, b, d)

lookup-front :
    (id : String) (a b : Dict NodeDesiredState) (st : NodeDesiredState)
    → lookup id a ≡ some st
    → lookup id (a ++ b) ≡ some st
lookup-front id [] b st h = cc
lookup-front id ((k, x) ∷ a) b st h = elim (==-cases k id) [
  | inl (p, q) ↦ rw q (rw q at h)
  | inr (p, q) ↦ rw q (lookup-front id a b st (rw q at h))
]

All-Any : (ns : List Node) → All (λ n. Any (λ m. m.id ≡ n.id) ns) ns
All-Any [] = tt
All-Any (n ∷ ns) = (inl refl, All-mono ns (λ m h. inr h) (All-Any ns))

-- What an agent is served under the id.
abbrev pub Served : (NodeDesiredState → Option String) → ℕ → Server → String → Type 0
Served sha generation s id =
    (st : NodeDesiredState) × (handle_agent_desired id s ≡ ok st) × IsFor sha generation id st

-- What a publication from `s` has done, by how it ended.
abbrev pub Published :
    (NodeDesiredState → Option String) → Server → Option ConfigRevision × Server → Type 0
Published sha s (none, t) = (t.desired ≡ s.desired) × (t.revisions ≡ s.revisions)
Published sha s (some rev, t) =
    (t.revisions ≡ s.revisions ++ rev ∷ [])
    × All (λ q. q.generation < rev.generation) s.revisions
    × All (λ n. Served sha rev.generation t n.id) t.db.nodes

module _ (split_host_port : String → Option (String × String)) (parse_ip : String → Option Ip)
    (sha256_of_json : NodeDesiredState → Option String) (decrypt : String → Option String)
    (c : Call) (reason : String) (s : Server) where
  abbrev result : Option ConfigRevision × Server
  result = publish_config split_host_port parse_ip sha256_of_json decrypt c reason s

  abbrev base : Server
  base = repaired split_host_port parse_ip sha256_of_json decrypt c s

  publish_config-failed :
      compile_db split_host_port parse_ip sha256_of_json decrypt base.db
          (next_generation s.revisions)
        ≡ none
      → result ≡ (none, base)
  unfolding publish_config
  publish_config-failed e = rw (e, publish_config) refl

  publish_config-done :
      (states : Dict NodeDesiredState)
      → compile_db split_host_port parse_ip sha256_of_json decrypt base.db
          (next_generation s.revisions)
        ≡ some states
      → result ≡ (
        some (revision_of (c.uuid 0) c.now reason (next_generation s.revisions)),
        store_states c (c.uuid 0) states (record base {
          revisions =
              create_config_revision s.revisions
                (c.uuid 0)
                c.now
                reason
                (next_generation s.revisions);
        }),
      )
  unfolding publish_config
  publish_config-done states e = rw (e, publish_config) refl

  served :
      (states : Dict NodeDesiredState) (t : Server) (id : String)
      → compile_db split_host_port parse_ip sha256_of_json decrypt base.db
          (next_generation s.revisions)
        ≡ some states
      → t.desired ≡ states ++ s.desired
      → Any (λ n. n.id ≡ id) base.db.nodes
      → Served sha256_of_json (next_generation s.revisions) t id
  unfolding handle_agent_desired compile_db compile list_nodes repaired
  served states t id e d m =
      let (a, k) =
        compile_from-AllFor split_host_port parse_ip sha256_of_json decrypt
          (λ l. some (list_link_endpoints base.db l)) (list_nodes base.db) (list_links base.db)
          (next_generation s.revisions) [] (list_nodes base.db) states e tt in
      let (st, f) = HasKey-lookup id states (k id (inr m)) in
      (
        st,
        rw (d, lookup-front id states s.desired st f, handle_agent_desired) refl,
        AllFor-lookup sha256_of_json (next_generation s.revisions) id states st a f,
      )

  -- When publishConfig returns a revision, its generation is above that of every older one, it has
  -- been recorded after them, and every node of the tables is served a state that is made for the
  -- node, has this generation and carries its own hash. When it fails, the desired states and the
  -- revisions are as before.
  pub publish_config-Published : Published sha256_of_json s result
  unfolding repaired create_config_revision revision_of
  publish_config-Published =
      elim (Option-cases (
        compile_db split_host_port parse_ip sha256_of_json decrypt base.db
          (next_generation s.revisions))) [
            | inl e ↦ rw (publish_config-failed e) (refl, refl)
            | inr (states, e) ↦
                let t : Server = record base {
                  revisions =
                      create_config_revision s.revisions (c.uuid 0) c.now reason
                        (next_generation s.revisions);
                } in
                let (a, b, d) = store_states-desired c (c.uuid 0) states t in
                rw (publish_config-done states e) (
                  b,
                  next_generation-above s.revisions,
                  subst
                      (λ db.
                        All
                          (λ n.
                            Served sha256_of_json (next_generation s.revisions)
                              (store_states c (c.uuid 0) states t) n.id)
                          db.nodes)
                      (sym d)
                      (All-mono base.db.nodes
                        (λ n m. served states (store_states c (c.uuid 0) states t) n.id e a m)
                        (All-Any base.db.nodes)),
                )
          ]

  -- Publishing changes nothing of the tables but nodes and endpoints.
  pub publish_config-kept :
      {X : Type 0} (field : Db → X) → Apart field → field result.1.db ≡ field s.db
  unfolding repaired
  publish_config-kept field apart =
      elim (Option-cases (
        compile_db split_host_port parse_ip sha256_of_json decrypt base.db
          (next_generation s.revisions))) [
            | inl e ↦
                rw (publish_config-failed e)
                  (repair_link_endpoints-kept split_host_port parse_ip field apart s.db c.now)
            | inr (states, e) ↦
                let t : Server = record base {
                  revisions =
                      create_config_revision s.revisions (c.uuid 0) c.now reason
                        (next_generation s.revisions);
                } in
                let (a, b, d) = store_states-desired c (c.uuid 0) states t in
                rw (publish_config-done states e, d)
                  (repair_link_endpoints-kept split_host_port parse_ip field apart s.db c.now)
          ]
