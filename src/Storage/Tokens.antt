-- ===== src/Storage/Tokens.antt =====
-- internal/storage/policies.go: the enrollment tokens.
use sd_wan_plus.Base.{
  ℕ, String, ◌==◌, Option, some, List, [], ◌∷◌, ◌++◌, if◌then◌else◌, map, leb, true, order_by,
}
use sd_wan_plus.Core.Types.{EnrollmentToken}
use sd_wan_plus.Storage.Tables.{Db, first_row}

-- `id` is what uuid.NewString returns.
unfoldable pub create_enrollment_token : Db → (id : String) → (now : ℕ) → EnrollmentToken → Db
create_enrollment_token db id now t = record db {
  enrollment_tokens =
      db.enrollment_tokens
      ++ record t { id = if t.id == "" then id else t.id; created_at = now } ∷ [];
}

unfoldable pub get_enrollment_token : Db → String → Option EnrollmentToken
get_enrollment_token db token = first_row (λ t. t.token == token) db.enrollment_tokens

-- ORDER BY created_at DESC
unfoldable pub list_enrollment_tokens : Db → List EnrollmentToken
list_enrollment_tokens db = order_by (λ s t. leb t.created_at s.created_at) db.enrollment_tokens

unfoldable pub update_token : Db → String → (EnrollmentToken → EnrollmentToken) → Db
update_token db id f = record db {
  enrollment_tokens = map (λ t. if t.id == id then f t else t) db.enrollment_tokens;
}

unfoldable pub mark_token_used : Db → (now : ℕ) → String → Db
mark_token_used db now id = update_token db id (λ t. record t { used_at = some now })

unfoldable pub revoke_token : Db → String → Db
revoke_token db id = update_token db id (λ t. record t { revoked = true })
