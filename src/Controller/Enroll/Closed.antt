-- ===== src/Controller/Enroll/Closed.antt =====
-- A token after a node has committed with it, whatever requests on tokens and nodes follow.
use sd_wan_plus.Base.{
  ℕ, String, ◌==◌, ◌≡◌, sym, ap, ◌∙◌, subst, ◌≢◌, inl, inr, Bool, true, Bool-cases, Option, none,
  some, Option-cases, List, [], ◌∷◌, ◌++◌, if◌then◌else◌, map, arith,
}
use mathlib.Core.Option
use sd_wan_plus.Core.Types.{EnrollmentToken}
use sd_wan_plus.Netutil.{Ip}
use sd_wan_plus.Routing.Types.{NodeDesiredState}
use sd_wan_plus.Storage.Tables.{Db, first_row, touch_node_seen, update_node}
use sd_wan_plus.Storage.Tokens.{
  get_enrollment_token, mark_token_used, revoke_token, update_token, create_enrollment_token,
}
use sd_wan_plus.Controller.State.{Server, Call, Reply, ok, refused, Accepted, audit}
use sd_wan_plus.Controller.Tokens.{
  NetworkRow, TokenBody, created_token, store_token, handle_create_token, handle_revoke_token,
}
use sd_wan_plus.Controller.Enroll.{EnrollBody, handle_enroll, handle_commit_enroll}
use sd_wan_plus.Controller.Enroll.Token.{Usable, first_row-map, handle_enroll-Usable, mark-found}

-- The token is in the tables, and used.
abbrev pub Spent : List EnrollmentToken → String → Type 0
Spent ts token =
    (t : EnrollmentToken) × (first_row (λ x. x.token == token) ts ≡ some t) × (t.used_at ≢ none)

Spent-map :
    (token : String) (g : EnrollmentToken → EnrollmentToken) (ts : List EnrollmentToken)
    → ((t : EnrollmentToken) → (g t).token ≡ t.token)
    → ((t : EnrollmentToken) → t.used_at ≢ none → (g t).used_at ≢ none)
    → Spent ts token
    → Spent (map g ts) token
Spent-map token g ts same keeps (t, e, u) =
    (g t, first_row-map token g same ts ∙ ap (Option.map g) e, keeps t u)

first_row-front :
    {A : Type 0} (p : A → Bool) (xs ys : List A) (x : A)
    → first_row p xs ≡ some x
    → first_row p (xs ++ ys) ≡ some x
first_row-front p [] ys x h = absurd (cc h)
first_row-front p (y ∷ xs) ys x h = elim (Bool-cases (p y)) [
  | inl e ↦ rw e (rw e at h)
  | inr e ↦ rw e (first_row-front p xs ys x (rw e at h))
]

mark_token_used-Spent :
    (now : ℕ) (id token : String) (db : Db)
    → Spent db.enrollment_tokens token
    → Spent (mark_token_used db now id).enrollment_tokens token
unfolding mark_token_used update_token
mark_token_used-Spent now id token db h =
    Spent-map token (λ t. if t.id == id then record t { used_at = some now } else t)
      db.enrollment_tokens (λ t. ground arith)
      (λ t u. elim (Bool-cases (t.id == id)) [ inl e ↦ rw e (λ x. cc) | inr e ↦ rw e u ]) h

revoke_token-Spent :
    (id token : String) (db : Db)
    → Spent db.enrollment_tokens token
    → Spent (revoke_token db id).enrollment_tokens token
unfolding revoke_token update_token
revoke_token-Spent id token db h =
    Spent-map token (λ t. if t.id == id then record t { revoked = true } else t)
      db.enrollment_tokens (λ t. ground arith)
      (λ t u. elim (Bool-cases (t.id == id)) [ inl e ↦ rw e u | inr e ↦ rw e u ]) h

handle_commit_enroll-Spent :
    (now : ℕ) (version node other token : String) (s : Server)
    → Spent s.db.enrollment_tokens token
    → Spent (handle_commit_enroll now version node other s).1.db.enrollment_tokens token
unfolding handle_commit_enroll touch_node_seen update_node
handle_commit_enroll-Spent now version node other token s h =
    elim (Option-cases (get_enrollment_token s.db other)) [
      | inl e ↦ rw (e, handle_commit_enroll) h
      | inr (t, e) ↦ rw (e, handle_commit_enroll) (mark_token_used-Spent now t.id token s.db h)
    ]

handle_create_token-Spent :
    (c : Call) (b : TokenBody) (network : Option NetworkRow) (tok : Option String) (token : String)
    (s : Server)
    → Spent s.db.enrollment_tokens token
    → Spent (handle_create_token c b network tok s).1.db.enrollment_tokens token
unfolding handle_create_token store_token create_enrollment_token audit
handle_create_token-Spent c b network tok token s h = stored (created_token c.now b network tok s)
  where
    stored : (r : Reply EnrollmentToken) → Spent (store_token c b r s).1.db.enrollment_tokens token
    stored (refused code message) = h
    stored (ok t) = let (u, e, x) = h in (u, first_row-front _ s.db.enrollment_tokens _ u e, x)

-- handleCommitEnroll accepts only a token that is there, and marks it.
commit-Spent :
    (now : ℕ) (version node token : String) (s : Server)
    → Accepted (handle_commit_enroll now version node token s).0
    → Spent (handle_commit_enroll now version node token s).1.db.enrollment_tokens token
unfolding handle_commit_enroll get_enrollment_token
commit-Spent now version node token s h = elim (Option-cases (get_enrollment_token s.db token)) [
  | inl e ↦ absurd (rw (e, handle_commit_enroll) at h)
  | inr (t, e) ↦
      rw (e, handle_commit_enroll)
        (record t { used_at = some now }, mark-found now version node token s t e, λ x. cc)
]

Spent-Usable :
    (now : ℕ) (token : String) (db : Db)
    → Spent db.enrollment_tokens token
    → ¬ Usable now (get_enrollment_token db token)
unfolding get_enrollment_token
Spent-Usable now token db (t, e, u) h = let (a, b, d, f) = rw e at h in u b

-- What the database and the generator of keys answer during an enrollment.
pub record Given : Type 0 where
  pub network : Option NetworkRow
  pub wg_pair : Option (String × String)
  pub id_pair : Option (String × String)

-- What can be asked of the controller about tokens.
pub data TokenRequest : Type 0 where
  enroll : Given → Call → EnrollBody → TokenRequest
  commit : (now : ℕ) → (version node token : String) → TokenRequest
  create : Given → Call → TokenBody → (tok : Option String) → TokenRequest
  revoke : String → TokenRequest

module _ (split_host_port : String → Option (String × String)) (parse_ip : String → Option Ip)
    (parse_cidr : String → Option (Ip × ℕ)) (encrypt : String → Option String)
    (sha256_of_json : NodeDesiredState → Option String) (decrypt : String → Option String) where
  abbrev pub enrolled_by : Given → Call → EnrollBody → Server → Reply String × Server
  enrolled_by g c b s =
      handle_enroll split_host_port parse_ip parse_cidr encrypt g.network g.wg_pair g.id_pair
        sha256_of_json decrypt c b s

  abbrev pub serve : Server → TokenRequest → Server
  serve s (enroll g c b) = (enrolled_by g c b s).1
  serve s (commit now version node token) = (handle_commit_enroll now version node token s).1
  serve s (create g c b tok) = (handle_create_token c b g.network tok s).1
  serve s (revoke id) = handle_revoke_token id s

  abbrev pub serve_all : Server → List TokenRequest → Server
  serve_all s [] = s
  serve_all s (r ∷ rs) = serve_all (serve s r) rs

  serve-Spent :
      (token : String) (s : Server) (r : TokenRequest)
      → Spent s.db.enrollment_tokens token
      → Spent (serve s r).db.enrollment_tokens token
  unfolding handle_revoke_token
  serve-Spent token s (enroll g c b) h =
      subst (λ ts. Spent ts token)
        (sym
          (handle_enroll-Usable split_host_port parse_ip parse_cidr encrypt g.network g.wg_pair
            g.id_pair sha256_of_json decrypt c b s).1)
        h
  serve-Spent token s (commit now version node other) h =
      handle_commit_enroll-Spent now version node other token s h
  serve-Spent token s (create g c b tok) h = handle_create_token-Spent c b g.network tok token s h
  serve-Spent token s (revoke id) h = revoke_token-Spent id token s.db h

  serve_all-Spent :
      (token : String) (s : Server) (rs : List TokenRequest)
      → Spent s.db.enrollment_tokens token
      → Spent (serve_all s rs).db.enrollment_tokens token
  serve_all-Spent token s [] h = h
  serve_all-Spent token s (r ∷ rs) h =
      serve_all-Spent token (serve s r) rs (serve-Spent token s r h)

  -- Once handleCommitEnroll has accepted a token, every later handleEnroll with it fails and changes
  -- nothing, whatever enrollments, commits, new tokens and revocations come between.
  pub handle_commit_enroll-closes :
      (now : ℕ) (version node : String) (s : Server) (rs : List TokenRequest) (g : Given) (c : Call)
      (b : EnrollBody)
      → Accepted (handle_commit_enroll now version node b.token s).0
      → let t = serve_all (handle_commit_enroll now version node b.token s).1 rs in
        (¬ Accepted (enrolled_by g c b t).0) × ((enrolled_by g c b t).1 ≡ t)
  handle_commit_enroll-closes now version node s rs g c b h =
      let t = serve_all (handle_commit_enroll now version node b.token s).1 rs in
      let spent : Spent t.db.enrollment_tokens b.token =
        serve_all-Spent b.token _ rs (commit-Spent now version node b.token s h) in
      elim (handle_enroll-Usable split_host_port parse_ip parse_cidr encrypt g.network g.wg_pair
        g.id_pair sha256_of_json decrypt c b t).0 [
          | inl usable ↦ absurd (Spent-Usable c.now b.token t.db spent usable)
          | inr x ↦ x
        ]
