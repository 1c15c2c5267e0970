-- ===== src/Controller/Enroll/Token.antt =====
-- Which tokens admit a node, and for how long.
use sd_wan_plus.Base.{
  ℕ, ◌≤◌, ◌<◌, String, ◌==◌, eq_iff, ◌≡◌, refl, ap, ◌∙◌, ◌↔◌, ◌⊎◌, inl, inr, Bool, true, false,
  Bool-cases, Option, none, some, Option-cases, List, [], ◌∷◌, if◌then◌else◌, map, arith,
}
use mathlib.Core.Option
use sd_wan_plus.Core.Types.{Node, EnrollmentToken}
use sd_wan_plus.Netutil.{Ip}
use sd_wan_plus.Routing.Types.{NodeDesiredState}
use sd_wan_plus.Storage.Tables.{
  Db, first_row, create_node, add_node_address, create_control_relation, touch_node_seen,
  update_node,
}
use sd_wan_plus.Storage.Links.{create_link, create_link_endpoint}
use sd_wan_plus.Storage.Ports.{allocate_wg_port}
use sd_wan_plus.Storage.Tokens.{get_enrollment_token, mark_token_used, update_token}
use sd_wan_plus.Controller.State.{Server, Call, Reply, ok, refused, Accepted, later, ◌>>=◌}
use sd_wan_plus.Controller.Nodes.{
  Pool, with_listen_port, with_start, with_end, ordered_pool, valid_udp_port,
}
use sd_wan_plus.Controller.Nodes.Ports.{ValidPorts}
use sd_wan_plus.Controller.Repair.Kept.{allocate_wg_port-kept}
use sd_wan_plus.Controller.Publish.Published.{publish_config-kept}
use sd_wan_plus.Controller.Enroll.{
  EnrollBody, Admission, enrolled_pool, admit, insert_node, insert_parent_link, with_port,
  with_admission, handle_enroll,
}
use sd_wan_plus.Controller.Tokens.{NetworkRow, check_token, valid_token}

-- The token is there, and neither revoked nor used nor expired.
abbrev pub Usable : (now : ℕ) → Option EnrollmentToken → Type 0
Usable now none = ⊥
Usable now (some t) =
    (t.revoked ≡ false) × (t.used_at ≡ none) × (0 < t.expires_at) × (now ≤ t.expires_at)

check_token-Accepted :
    (now : ℕ) (t : EnrollmentToken) → Accepted (check_token now t) ↔ Usable now (some t)
unfolding check_token
check_token-Accepted now t = elim (Option-cases t.used_at) [
  | inl e ↦ ground arith
  | inr (u, e) ↦ ground arith
]

-- The guards of handleBootstrapInstall and handleEnroll let exactly the tokens through that are there,
-- not revoked, not used and not expired.
pub valid_token-Accepted_iff :
    (now : ℕ) (db : Db) (token : String)
    → Accepted (valid_token now db token) ↔ Usable now (get_enrollment_token db token)
unfolding valid_token
valid_token-Accepted_iff now db token = elim (Option-cases (get_enrollment_token db token)) [
  | inl e ↦ rw e ((λ h. h, λ h. h))
  | inr (t, e) ↦ rw e (check_token-Accepted now t)
]

>>=-refused {ℓ κ} :
    {A : Type ℓ} {B : Type κ} (r : Reply A) (f : A → Reply B) → Accepted (r >>= f) → Accepted r
>>=-refused (ok a) f h = tt
>>=-refused (refused code message) f h = h

insert_node-tokens :
    (c : Call) (b : EnrollBody) (a : Admission) (db : Db)
    → (insert_node c b a db).enrollment_tokens ≡ db.enrollment_tokens
unfolding insert_node create_node create_control_relation add_node_address
insert_node-tokens c b a db = ground arith

insert_parent_link-tokens :
    (c : Call) (a : Admission) (address : String) (port : ℕ) (db : Db)
    → (insert_parent_link c a address port db).enrollment_tokens ≡ db.enrollment_tokens
unfolding insert_parent_link create_link create_link_endpoint
insert_parent_link-tokens c a address port db = ground arith

module _ (split_host_port : String → Option (String × String)) (parse_ip : String → Option Ip)
    (parse_cidr : String → Option (Ip × ℕ)) (encrypt : String → Option String)
    (network : Option NetworkRow) (wg_pair id_pair : Option (String × String))
    (sha256_of_json : NodeDesiredState → Option String) (decrypt : String → Option String)
    (c : Call) (b : EnrollBody) (s : Server) where
  abbrev admitted : Reply Admission
  admitted = admit split_host_port parse_ip parse_cidr encrypt network wg_pair id_pair c.now b s

  abbrev pub enrolled : Reply String × Server
  enrolled =
      handle_enroll split_host_port parse_ip parse_cidr encrypt network wg_pair id_pair
        sha256_of_json decrypt c b s

  admit-Usable : Accepted admitted → Usable c.now (get_enrollment_token s.db b.token)
  unfolding admit
  admit-Usable h =
      (valid_token-Accepted_iff c.now s.db b.token).0
        (>>=-refused (valid_token c.now s.db b.token) _ h)

  with_port-tokens :
      (a : Admission) (r : Option ℕ × Db)
      → (with_port split_host_port parse_ip parse_cidr encrypt network wg_pair id_pair
          sha256_of_json decrypt c b a r s).1.db.enrollment_tokens
        ≡ r.1.enrollment_tokens
  unfolding with_port
  with_port-tokens a (none, db) = refl
  with_port-tokens a (some port, db) =
      publish_config-kept split_host_port parse_ip sha256_of_json decrypt (later 8 c) _ _
        (λ d. d.enrollment_tokens) (λ d n e. refl)
      ∙ insert_parent_link-tokens c a _ port db

  with_admission-tokens :
      (r : Reply Admission)
      → (with_admission split_host_port parse_ip parse_cidr encrypt network wg_pair id_pair
          sha256_of_json decrypt c b r s).1.db.enrollment_tokens
        ≡ s.db.enrollment_tokens
  unfolding with_admission
  with_admission-tokens (refused code message) = refl
  with_admission-tokens (ok a) =
      with_port-tokens a
        (allocate_wg_port split_host_port parse_ip (insert_node c b a s.db) c.now a.parent.id)
      ∙ allocate_wg_port-kept split_host_port parse_ip (λ d. d.enrollment_tokens) (λ d n e. refl)
          (insert_node c b a s.db) c.now a.parent.id
      ∙ insert_node-tokens c b a s.db

  with_admission-refused :
      (r : Reply Admission)
      → Accepted r
        ⊎ ((¬ Accepted
              (with_admission split_host_port parse_ip parse_cidr encrypt network wg_pair id_pair
                sha256_of_json decrypt c b r s).0)
            × ((with_admission split_host_port parse_ip parse_cidr encrypt network wg_pair id_pair
                  sha256_of_json decrypt c b r s).1
                ≡ s))
  unfolding with_admission
  with_admission-refused (ok a) = inl tt
  with_admission-refused (refused code message) = inr (λ h. h, refl)

  -- handleEnroll admits a node only with a token that is there, not revoked, not used and not
  -- expired; for any other it fails and changes nothing. Either way it leaves every token as it was,
  -- so that a token that has admitted a node admits others until a node commits with it.
  pub handle_enroll-Usable :
      (Usable c.now (get_enrollment_token s.db b.token)
        ⊎ ((¬ Accepted enrolled.0) × (enrolled.1 ≡ s)))
      × (enrolled.1.db.enrollment_tokens ≡ s.db.enrollment_tokens)
  unfolding handle_enroll
  handle_enroll-Usable = (
    elim (with_admission-refused admitted) [ inl h ↦ inl (admit-Usable h) | inr h ↦ inr h ],
    with_admission-tokens admitted,
  )

-- The first row with the token, after an update that leaves the tokens' texts.
pub first_row-map :
    (token : String) (g : EnrollmentToken → EnrollmentToken)
    → ((t : EnrollmentToken) → (g t).token ≡ t.token)
    → (ts : List EnrollmentToken)
    → first_row (λ t. t.token == token) (map g ts)
      ≡ Option.map g (first_row (λ t. t.token == token) ts)
first_row-map token g same [] = refl
first_row-map token g same (t ∷ ts) =
    let q : (b : Bool) → (t.token == token) ≡ b → ((g t).token == token) ≡ b =
      λ b e. ap (λ x. x == token) (same t) ∙ e in
    elim (Bool-cases (t.token == token)) [
      | inl e ↦ rw (q true e, e) refl
      | inr e ↦ rw (q false e, e) (first_row-map token g same ts)
    ]

mark : (now : ℕ) → String → EnrollmentToken → EnrollmentToken
mark now id t = if t.id == id then record t { used_at = some now } else t

pub mark-found :
    (now : ℕ) (version node token : String) (s : Server) (t : EnrollmentToken)
    → get_enrollment_token s.db token ≡ some t
    → get_enrollment_token
        (touch_node_seen (mark_token_used s.db now t.id) now node version none)
        token
      ≡ some (record t { used_at = some now })
unfolding get_enrollment_token mark_token_used update_token touch_node_seen update_node mark
mark-found now version node token s t e =
    first_row-map token (mark now t.id) (λ x. ground arith) s.db.enrollment_tokens
    ∙ ap (Option.map (mark now t.id)) e
    ∙ ap some (ground (arith, eq_iff t.id t.id))

-- The pool of an enrolled node: UDP ports, not empty, and one port only if the node cannot be dialled.
abbrev pub GoodPool : Bool → Reply Pool → Type 0
GoodPool is_public (refused code message) = Unit {0}
GoodPool is_public (ok p) =
    (1 ≤ p.0) × (p.0 ≤ p.1) × (p.1 ≤ 65535) × ((is_public ≡ true) ⊎ (p.0 ≡ p.1))

-- Whatever ports the body names, the pool that a node is enrolled with lies within the UDP ports and
-- is not empty, if this holds of its parent's and of the port of the configuration; for a node that
-- cannot be dialled it is one port.
pub enrolled_pool-GoodPool :
    (is_public : Bool) (port : ℕ) (parent : Node) (b : EnrollBody)
    → ValidPorts parent
    → 1 ≤ port
    → port ≤ 65535
    → GoodPool is_public (enrolled_pool is_public port parent b)
unfolding enrolled_pool with_listen_port with_start with_end ordered_pool valid_udp_port
enrolled_pool-GoodPool true port parent b v lo hi = ground arith
enrolled_pool-GoodPool false port parent b v lo hi = ground arith
