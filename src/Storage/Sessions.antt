-- ===== src/Storage/Sessions.antt =====
-- internal/storage/auth.go: the sessions; and the check of a request's session by the controller
-- (`authMiddleware` in internal/controller/server.go).
use sd_wan_plus.Base.{
  ℕ, String, ◌==◌, eq_iff, ◌≡◌, refl, sym, ap, ◌∙◌, ◌↔◌, ◌⊎◌, inl, inr, Bool, true, false, not,
  ◌&&◌, ◌||◌, Option, some, none, List, [], ◌∷◌, ◌++◌, map, if◌then◌else◌, ltb, arith, Bool-cases,
}
use sd_wan_plus.Storage.Tables.{first_row}

pub record Session : Type 0 where
  pub id : String
  pub admin_id : String
  pub token : String
  pub ip_address : String
  pub user_agent : String
  pub created_at : ℕ
  pub expires_at : ℕ
  pub revoked : Bool

-- `id` is what uuid.NewString returns.
unfoldable pub create_session :
    List Session → (id : String) → (now : ℕ) → String → String → String → String → ℕ → List Session
create_session ss id now admin token ip ua expires =
    ss
    ++ record {
      id = id;
      admin_id = admin;
      token = token;
      ip_address = ip;
      user_agent = ua;
      created_at = now;
      expires_at = expires;
      revoked = false;
    }
      ∷ []

unfoldable pub get_session_by_token : List Session → String → Option Session
get_session_by_token ss token = first_row (λ s. s.token == token) ss

unfoldable pub revoke_if : (Session → Bool) → Session → Session
revoke_if p s = if p s then record s { revoked = true } else s

unfoldable pub revoke_session : List Session → String → List Session
revoke_session ss id = map (revoke_if (λ s. s.id == id)) ss

unfoldable pub revoke_other_sessions : List Session → String → String → List Session
revoke_other_sessions ss admin keep =
    map (revoke_if (λ s. s.admin_id == admin && not (s.id == keep))) ss

unfoldable pub live : ℕ → Session → Option Session
live now s = if s.revoked || ltb s.expires_at now then none else some s

-- The session that a request's cookie stands for, none for "session expired".
unfoldable pub session_of : List Session → (now : ℕ) → String → Option Session
session_of ss now token = elim (get_session_by_token ss token) [ none ↦ none | some s ↦ live now s ]

revoke_if-token :
    (p : Session → Bool) (token : String) (t : Session)
    → ((revoke_if p t).token == token) ≡ (t.token == token)
unfolding revoke_if
revoke_if-token p token t = elim (Bool-cases (p t)) [
  | inl e ↦ rw (revoke_if, e) refl
  | inr e ↦ rw (revoke_if, e) refl
]

revoked_row :
    (p : Session → Bool) (ss : List Session) (token : String)
    → ((first_row (λ s. s.token == token) ss ≡ none)
        × (first_row (λ s. s.token == token) (map (revoke_if p) ss) ≡ none))
      ⊎ ((s : Session) × (first_row (λ s. s.token == token) ss ≡ some s)
          × (first_row (λ s. s.token == token) (map (revoke_if p) ss) ≡ some (revoke_if p s)))
revoked_row p [] token = inl (refl, refl)
revoked_row p (s ∷ ss) token = elim (Bool-cases (s.token == token)) [
  | inl e ↦ inr (s, rw e refl, rw (revoke_if-token p token s ∙ e) refl)
  | inr e ↦ elim (revoked_row p ss token) [
    | inl (a, b) ↦ inl (rw e a, rw (revoke_if-token p token s ∙ e) b)
    | inr (t, a, b) ↦ inr (t, rw e a, rw (revoke_if-token p token s ∙ e) b)
  ]
]

live-same : (now : ℕ) (s t : Session) → live now s ≡ some t → s ≡ t
unfolding live
live-same now s t h = ground arith

live-revoke_if :
    (p : Session → Bool) (now : ℕ) (s t : Session)
    → (live now (revoke_if p s) ≡ some t) ↔ ((live now s ≡ some t) × (p t ≡ false))
unfolding live revoke_if
live-revoke_if p now s t = elim (Bool-cases (p s)) [
  | inl e ↦ rw e (λ x. absurd (cc x), λ h. absurd (cc (sym e ∙ ap p (live-same now s t h.0) ∙ h.1)))
  | inr e ↦ rw e (λ x. (x, sym (ap p (live-same now s t x)) ∙ e), λ h. h.0)
]

session_of-none :
    (ss : List Session) (now : ℕ) (token : String)
    → first_row (λ s. s.token == token) ss ≡ none
    → session_of ss now token ≡ none
unfolding session_of get_session_by_token
session_of-none ss now token h = rw (session_of, get_session_by_token, h) refl

session_of-some :
    (ss : List Session) (now : ℕ) (token : String) (s : Session)
    → first_row (λ s. s.token == token) ss ≡ some s
    → session_of ss now token ≡ live now s
unfolding session_of get_session_by_token
session_of-some ss now token s h = rw (session_of, get_session_by_token, h) refl

session_of-revoke_if :
    (p : Session → Bool) (ss : List Session) (now : ℕ) (token : String) (t : Session)
    → (session_of (map (revoke_if p) ss) now token ≡ some t)
      ↔ ((session_of ss now token ≡ some t) × (p t ≡ false))
session_of-revoke_if p ss now token t = elim (revoked_row p ss token) [
  | inl (a, b) ↦
      rw (session_of-none ss now token a, session_of-none (map (revoke_if p) ss) now token b)
        (λ x. absurd (cc x), λ h. h.0)
  | inr (s, a, b) ↦
      rw
        (
          session_of-some ss now token s a,
          session_of-some (map (revoke_if p) ss) now token (revoke_if p s) b,
        )
        (live-revoke_if p now s t)
]

-- After RevokeOtherSessions, a request's session is accepted exactly when it was accepted before and
-- is not another session of that administrator than the one that is kept.
pub session_of-revoke_other_sessions :
    (ss : List Session) (admin keep : String) (now : ℕ) (token : String) (t : Session)
    → (session_of (revoke_other_sessions ss admin keep) now token ≡ some t)
      ↔ ((session_of ss now token ≡ some t) × (t.admin_id ≡ admin → t.id ≡ keep))
unfolding revoke_other_sessions
session_of-revoke_other_sessions ss admin keep now token t = ground (
  arith,
  session_of-revoke_if (λ s. s.admin_id == admin && not (s.id == keep)) ss now token t,
  eq_iff t.admin_id admin,
  eq_iff t.id keep,
)
