-- ===== src/Controller/Releases.antt =====
-- internal/controller/updates_release.go: the cache of the latest release, and the comparison with the
-- version that is installed. The look-up at GitHub is a parameter of a call, as its result.
use sd_wan_plus.Base.{
  ℕ, ◌+◌, String, ◌==◌, eq_iff, ◌≡◌, refl, ◌↔◌, ◌⊎◌, inl, inr, Bool, true, false, not, ◌&&◌, ◌||◌,
  Option, none, some, Option-cases, Bool-cases, List, [], ◌∷◌, if◌then◌else◌, ltb, trim_space,
  str_append, All, ◌≢◌, arith,
}
mod Samples

-- The fields ghCached, ghCachedAt and ghCachedErr of the server.
pub record ReleaseCache (A : Type 0) : Type 0 where
  pub cached : Option A
  pub cached_at : ℕ
  pub cached_err : String

-- What fetchGitHubLatestUncached returns: a release or the text of an error.
pub data Fetched (A : Type 0) : Type 0 where
  release : A → Fetched A
  failed : String → Fetched A

abbrev pub is_cached : {A : Type 0} → Option A → Bool
is_cached none = false
is_cached (some info) = true

module _ {A : Type 0} (fallback : A) where
  -- After the look-up.
  unfoldable pub remember : (now : ℕ) → Fetched A → ReleaseCache A → Option A × ReleaseCache A
  remember now (release info) c =
      (some info, record { cached = some info; cached_at = now; cached_err = "" })
  remember now (failed e) c = elim c.cached [
    | none ↦ (some fallback, record { cached = some fallback; cached_at = now; cached_err = e })
    | some info ↦ (some info, record { cached = some info; cached_at = now; cached_err = e })
  ]

  -- Times are in seconds; the result is none for an error.
  unfoldable pub fetch_github_latest_cached :
      (now : ℕ) → (force : Bool) → Fetched A → ReleaseCache A → Option A × ReleaseCache A
  fetch_github_latest_cached now force answer c =
      elim (not force && is_cached c.cached && ltb now (c.cached_at + 1800)) [
        | true ↦ (c.cached, c)
        | false ↦ elim (not force && not (c.cached_err == "") && ltb now (c.cached_at + 300)) [
          | true ↦ (c.cached, c)
          | false ↦ remember now answer c
        ]
      ]

  -- An error is remembered only beside a release.
  abbrev pub IsFilled : ReleaseCache A → Type 0
  IsFilled c = (c.cached_err ≡ "") ⊎ ((info : A) × (c.cached ≡ some info))

  abbrev pub IsAnswered : Option A × ReleaseCache A → Type 0
  IsAnswered r = ((info : A) × (r.0 ≡ some info)) × IsFilled r.1

  remember-Answered :
      (now : ℕ) (answer : Fetched A) (c : ReleaseCache A) → IsAnswered (remember now answer c)
  unfolding remember
  remember-Answered now (release info) c = ((info, refl), inl refl)
  remember-Answered now (failed e) c = elim (Option-cases c.cached) [
    | inl n ↦ rw n ((fallback, refl), inr (fallback, refl))
    | inr (info, n) ↦ rw n ((info, refl), inr (info, refl))
  ]

  -- If an error is remembered only beside a release, a call returns a release, whatever the look-up
  -- gives, and the same holds afterwards.
  fetch_github_latest_cached-Answered :
      (now : ℕ) (force : Bool) (answer : Fetched A) (c : ReleaseCache A)
      → IsFilled c
      → IsAnswered (fetch_github_latest_cached now force answer c)
  unfolding fetch_github_latest_cached
  fetch_github_latest_cached-Answered now force answer c h = elim (Option-cases c.cached) [
    | inl n ↦ elim h [
      | inl e ↦ ground (arith, eq_iff c.cached_err "", remember-Answered now answer c)
      | inr (info, m) ↦ ground (arith)
    ]
    | inr (info, n) ↦
        held info n (not force && is_cached c.cached && ltb now (c.cached_at + 1800))
          (not force && not (c.cached_err == "") && ltb now (c.cached_at + 300))
  ]
    where
      held :
          (info : A)
          → c.cached ≡ some info
          → (p q : Bool)
          → IsAnswered (elim p [
            | true ↦ (c.cached, c)
            | false ↦ elim q [ true ↦ (c.cached, c) | false ↦ remember now answer c ]
          ])
      held info n true q = ((info, n), inr (info, n))
      held info n false true = ((info, n), inr (info, n))
      held info n false false = remember-Answered now answer c

  -- The results of one call after the other; each has its time, whether it is forced, and what the
  -- look-up would return.
  unfoldable pub fetch_all : List (ℕ × Bool × Fetched A) → ReleaseCache A → List (Option A)
  fetch_all [] c = []
  fetch_all ((now, force, answer) ∷ calls) c =
      let (found, next) = fetch_github_latest_cached now force answer c in
      found ∷ fetch_all calls next

  -- From a cache in which an error is remembered only beside a release, as the empty one, no call of a
  -- sequence fails, whatever the look-ups give.
  pub fetch_all-Answered :
      (calls : List (ℕ × Bool × Fetched A)) (c : ReleaseCache A)
      → IsFilled c
      → All (λ o. (info : A) × (o ≡ some info)) (fetch_all calls c)
  unfolding fetch_all
  fetch_all-Answered [] c h = tt
  fetch_all-Answered ((now, force, answer) ∷ calls) c h =
      let (found, kept) = fetch_github_latest_cached-Answered now force answer c h in
      (found, fetch_all-Answered calls (fetch_github_latest_cached now force answer c).1 kept)

-- The test of the regular expression ^\d{4}\.\d{2}\.\d{2}$ is `is_day`, that of HasPrefix `has_prefix`.
unfoldable pub is_release_outdated :
    (is_day : String → Bool) (has_prefix : String → String → Bool) → String → String → Bool
is_release_outdated is_day has_prefix current latest =
    let c = trim_space current in
    let l = trim_space latest in
    if l == "" || c == ""
    then not (l == "") && not (l == c)
    else if c == l
    then false
    else if is_day c && has_prefix l (str_append c "-")
    then true
    else not (c == l)

-- isReleaseOutdated answers exactly whether there is a latest version and it differs from the current
-- one, without the blanks around both.
pub is_release_outdated_iff :
    (is_day : String → Bool) (has_prefix : String → String → Bool) (current latest : String)
    → (is_release_outdated is_day has_prefix current latest ≡ true)
      ↔ ((trim_space latest ≢ "") × (trim_space latest ≢ trim_space current))
unfolding is_release_outdated
is_release_outdated_iff is_day has_prefix current latest = ground (
  arith,
  eq_iff (trim_space latest) "",
  eq_iff (trim_space current) "",
  eq_iff (trim_space current) (trim_space latest),
  eq_iff (trim_space latest) (trim_space current),
)
