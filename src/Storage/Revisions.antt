-- ===== src/Storage/Revisions.antt =====
-- internal/storage/policies.go: the revisions of the configuration and their generations.
use sd_wan_plus.Base.{
  ℕ, ◌+◌, ◌<◌, ◌≤◌, String, ◌≡◌, refl, sym, subst, ◌⊎◌, inl, inr, Option, some, none, List, [], ◌∷◌,
  ◌++◌, if◌then◌else◌, ltb, All, All-mono, arith,
}
use sd_wan_plus.Core.Types.{ConfigRevision}

-- `id` is what uuid.NewString returns.
unfoldable pub create_config_revision :
    List ConfigRevision → (id : String) → (now : ℕ) → String → ℕ → List ConfigRevision
create_config_revision rs id now reason generation =
    rs
    ++ record {
      id = id;
      generation = generation;
      reason = reason;
      status = "Pending";
      created_at = now;
      completed_at = none;
    }
      ∷ []

abbrev pub larger : ℕ → Option ℕ → Option ℕ
larger g none = some g
larger g (some m) = some (if ltb m g then g else m)

-- SELECT MAX(generation), none for NULL
unfoldable pub max_generation : List ConfigRevision → Option ℕ
max_generation [] = none
max_generation (r ∷ rs) = larger r.generation (max_generation rs)

unfoldable pub generation_after : Option ℕ → ℕ
generation_after none = 1
generation_after (some m) = m + 1

unfoldable pub next_generation : List ConfigRevision → ℕ
next_generation rs = generation_after (max_generation rs)

generation_after-larger :
    (g : ℕ) (o : Option ℕ)
    → (g < generation_after (larger g o))
      × (generation_after o ≤ generation_after (larger g o) ⊎ (o ≡ none))
unfolding generation_after
generation_after-larger g none = (omega arith, inr refl)
generation_after-larger g (some m) = ground arith

max_generation-none : (rs : List ConfigRevision) → max_generation rs ≡ none → rs ≡ []
unfolding max_generation
max_generation-none [] h = refl
max_generation-none (r ∷ rs) h = ground arith

-- NextGeneration returns a generation above that of every revision.
pub next_generation-above :
    (rs : List ConfigRevision) → All (λ r. r.generation < next_generation rs) rs
unfolding next_generation max_generation
next_generation-above [] = tt
next_generation-above (r ∷ rs) =
    let (a, b) = generation_after-larger r.generation (max_generation rs) in
    (
      a,
      elim b [
        | inl le ↦ All-mono rs (λ q h. omega (arith, le, h)) (next_generation-above rs)
        | inr e ↦
            subst (All (λ q. q.generation < next_generation (r ∷ rs)))
              (sym (max_generation-none rs e)) tt
      ],
    )
