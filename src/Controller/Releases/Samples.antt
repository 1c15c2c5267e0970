-- ===== src/Controller/Releases/Samples.antt =====
-- The theorems on releases, for the versions of internal/controller/updates_release_test.go.
use sd_wan_plus.Base.{
  ℕ, String, ◌==◌, ◌&&◌, ◌≡◌, ◌≢◌, ◌↔◌, refl, Bool, true, false, none, some, inl, List, [], ◌∷◌,
  All, trim_space,
}
use sd_wan_plus.Controller.Releases.{
  ReleaseCache, Fetched, release, failed, fetch_all, fetch_all-Answered, is_release_outdated,
  is_release_outdated_iff,
}

abbrev empty : ReleaseCache String
empty = record { cached = none; cached_at = 0; cached_err = "" }

-- The look-up fails, is not repeated within five minutes, and then succeeds.
abbrev calls : List (ℕ × Bool × Fetched String)
calls =
    (1000, false, failed "rate limit exceeded")
    ∷ (1100, false, failed "timeout")
    ∷ (1400, true, release "2026.07.20-1517")
    ∷ []

fetch_all-Answered_example :
    All (λ o. (info : String) × (o ≡ some info)) (fetch_all "latest" calls empty)
fetch_all-Answered_example = fetch_all-Answered "latest" calls empty (inl refl)

abbrev is_day : String → Bool
is_day s = s == "2026.07.20"

abbrev extends : String → String → Bool
extends s t = s == "2026.07.20-1517" && t == "2026.07.20-"

is_release_outdated_iff_example :
    (is_release_outdated is_day extends "2026.07.20" "2026.07.20-1517" ≡ true) ↔ (
      (trim_space "2026.07.20-1517" ≢ "")
      × (trim_space "2026.07.20-1517" ≢ trim_space "2026.07.20"))
is_release_outdated_iff_example =
    is_release_outdated_iff is_day extends "2026.07.20" "2026.07.20-1517"
