-- ===== src/Controller/Tokens.antt =====
-- internal/controller/bootstrap.go and nodes_handlers.go: enrollment tokens. The network row comes from
-- GetNetwork.
use sd_wan_plus.Base.{
  ℕ, ◌+◌, ◌*◌, String, ◌==◌, Bool, true, false, ◌||◌, Option, none, some, List, if◌then◌else◌, ltb,
  eqb, trim_space,
}
use sd_wan_plus.Core.Types.{EnrollmentToken}
use sd_wan_plus.Storage.Tables.{Db, get_node}
use sd_wan_plus.Storage.Tokens.{
  create_enrollment_token, get_enrollment_token, list_enrollment_tokens, revoke_token,
}
use sd_wan_plus.Controller.State.{Server, Call, Reply, ok, refused, audit, ◌>>=◌}

pub record NetworkRow : Type 0 where
  pub id : String
  pub overlay_ipv4_cidr : String

abbrev pub or_refuse {ℓ} : {A : Type ℓ} → ℕ → String → Option A → Reply A
or_refuse code message none = refused code message
or_refuse code message (some a) = ok a

abbrev pub is_used : EnrollmentToken → Bool
is_used t = elim t.used_at [ none ↦ false | some u ↦ true ]

-- The guards on a token; the zero time is 0.
unfoldable pub check_token : (now : ℕ) → EnrollmentToken → Reply EnrollmentToken
check_token now t =
    if t.revoked
    then refused 403 "revoked"
    else if is_used t
    then refused 403 "already used"
    else if eqb t.expires_at 0 || ltb t.expires_at now
    then refused 403 "expired"
    else ok t

unfoldable pub valid_token : (now : ℕ) → Db → String → Reply EnrollmentToken
valid_token now db token = do
  t ← or_refuse 403 "token not found" (get_enrollment_token db token)
  check_token now t

-- What the install script is made from: the token, the name and the parent's port.
unfoldable pub handle_bootstrap_install :
    (now : ℕ) → (token name : String) → Server → Reply (String × (String × ℕ))
handle_bootstrap_install now token name s =
    if trim_space token == "" then refused 400 "token required" else do
      t ← valid_token now s.db (trim_space token)
      parent ← or_refuse 500 "parent missing" (get_node s.db t.parent_node_id)
      ok (
        trim_space token,
        (if name == "" then t.suggested_node_name else name, parent.node_service_port),
      )

pub record TokenBody : Type 0 where
  pub parent_node_id : String
  pub suggested_node_name : String
  pub expires_minutes : ℕ

-- The row of handleCreateToken; `tok` is what security.RandomToken returns.
unfoldable pub token_of : (now : ℕ) → String → String → TokenBody → EnrollmentToken
token_of now tok network b = record {
  id = "";
  token = tok;
  network_id = network;
  parent_node_id = b.parent_node_id;
  suggested_node_name = b.suggested_node_name;
  allowed_install_mode = "node";
  expires_at = now + 60 * (if eqb b.expires_minutes 0 then 60 else b.expires_minutes);
  used_at = none;
  revoked = false;
  created_at = 0;
}

unfoldable pub store_token :
    Call → TokenBody → Reply EnrollmentToken → Server → Reply String × Server
store_token c b (refused code message) s = (refused code message, s)
store_token c b (ok t) s = (
  ok t.token,
  audit c (c.uuid 1) "create_enrollment_token" "enrollment_token" (c.uuid 0) b.suggested_node_name
      (record s { db = create_enrollment_token s.db (c.uuid 0) c.now t }),
)

unfoldable pub created_token :
    (now : ℕ)
    → TokenBody
    → (network : Option NetworkRow) → (tok : Option String) → Server
    → Reply EnrollmentToken
created_token now b network tok s = do
  parent ← or_refuse 404 "parent not found" (get_node s.db b.parent_node_id)
  net ← or_refuse 500 "network" network
  text ← or_refuse 500 "random" tok
  ok (token_of now text net.id b)

unfoldable pub handle_create_token :
    Call
    → TokenBody
    → (network : Option NetworkRow) → (tok : Option String) → Server
    → Reply String × Server
handle_create_token c b network tok s = store_token c b (created_token c.now b network tok s) s

unfoldable pub handle_revoke_token : String → Server → Server
handle_revoke_token id s = record s { db = revoke_token s.db id }

unfoldable pub handle_list_tokens : Server → Reply (List EnrollmentToken)
handle_list_tokens s = ok (list_enrollment_tokens s.db)
