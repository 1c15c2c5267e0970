-- ===== src/Security/Limiter.antt =====
-- `RateLimiter`: at most `max` attempts in a sliding window. Times are numbers, and the clock is an
-- argument.
use sd_wan_plus.Base.{
  ℕ, suc, ◌+◌, ◌-◌, ◌≤◌, ◌<◌, String, ◌==◌, ◌≡◌, refl, Bool, true, false, ◌&&◌, some, none, List,
  [], ◌∷◌, ◌++◌, if◌then◌else◌, ltb, leb, length, All, Bool-cases, arith, Dict, lookup, ◌⊎◌, sym,
  ap, ◌∙◌, subst, inl, inr, ==-cases,
}

pub record RateLimiter : Type 0 where
  pub attempts : Dict (List ℕ)
  pub max : ℕ
  pub window : ℕ

unfoldable pub new_rate_limiter : ℕ → ℕ → RateLimiter
new_rate_limiter max window = record { attempts = []; max = max; window = window }

-- r.attempts[key], empty for a missing key
unfoldable pub attempts_of : String → Dict (List ℕ) → List ℕ
attempts_of key m = elim (lookup key m) [ none ↦ [] | some ts ↦ ts ]

-- The times that lie in the window that ends now: t.After(now.Add(-window)), where `now - window` is a
-- time after 0.
unfoldable pub kept : (cut : ℕ) → List ℕ → List ℕ
kept cut [] = []
kept cut (t ∷ ts) = let rest = kept cut ts in if ltb cut t then t ∷ rest else rest

unfoldable pub allow : RateLimiter → (now : ℕ) → String → Bool × RateLimiter
allow r now key =
    let ts = kept (now - r.window) (attempts_of key r.attempts) in
    if leb r.max (length ts)
    then (false, record r { attempts = (key, ts) ∷ r.attempts })
    else (true, record r { attempts = (key, ts ++ now ∷ []) ∷ r.attempts })

-- How many of the attempts, each at its time, are let through for `key`.
unfoldable pub granted : RateLimiter → String → List (ℕ × String) → ℕ
granted r key [] = 0
granted r key (a ∷ rest) =
    let step = allow r a.0 a.1 in
    let later = granted step.1 key rest in if a.1 == key && step.0 then suc later else later

length-kept : (cut : ℕ) (ts : List ℕ) → length (kept cut ts) ≤ length ts
unfolding kept
length-kept cut [] = omega arith
length-kept cut (t ∷ ts) = ground (arith, length-kept cut ts)

kept-append : (cut : ℕ) (ts us : List ℕ) → kept cut (ts ++ us) ≡ kept cut ts ++ kept cut us
unfolding kept
kept-append cut [] us = refl
kept-append cut (t ∷ ts) us = ground (arith, kept-append cut ts us)

-- A cut later than another keeps no more.
kept-kept : (cut later : ℕ) (ts : List ℕ) → cut ≤ later → kept later (kept cut ts) ≡ kept later ts
unfolding kept
kept-kept cut later [] h = refl
kept-kept cut later (t ∷ ts) h = ground (arith, kept-kept cut later ts h)

-- The attempts lie within one window after `start`.
abbrev pub InWindow : (start window : ℕ) → List (ℕ × String) → Type 0
InWindow start window attempts = All (λ a. (start < a.0) × (a.0 - window ≤ start)) attempts

-- What `key` has used of the window after `start`.
used : RateLimiter → String → ℕ → ℕ
used r key start = length (kept start (attempts_of key r.attempts))

attempts_of-same :
    (k key : String) (ts : List ℕ) (m : Dict (List ℕ))
    → (k == key) ≡ true
    → attempts_of key ((k, ts) ∷ m) ≡ ts
unfolding attempts_of
attempts_of-same k key ts m h = rw (h, attempts_of) refl

attempts_of-other :
    (k key : String) (ts : List ℕ) (m : Dict (List ℕ))
    → (k == key) ≡ false
    → attempts_of key ((k, ts) ∷ m) ≡ attempts_of key m
unfolding attempts_of
attempts_of-other k key ts m h = rw (h, attempts_of) refl

length-kept-concat :
    (start now : ℕ) (ts : List ℕ)
    → start < now
    → length (kept start (ts ++ now ∷ [])) ≡ suc (length (kept start ts))
unfolding kept
length-kept-concat start now [] h = ground arith
length-kept-concat start now (t ∷ ts) h = ground (arith, length-kept-concat start now ts h)

record Step (r : RateLimiter) (key : String) (start : ℕ) (a : ℕ × String) : Type 0 where
  after : RateLimiter
  answer : Bool
  step : allow r a.0 a.1 ≡ (answer, after)
  max : after.max ≡ r.max
  window : after.window ≡ r.window
  effect :
      ((a.1 == key && answer) ≡ true)
        × (used after key start ≡ suc (used r key start))
        × (suc (used r key start) ≤ r.max)
      ⊎ ((a.1 == key && answer) ≡ false) × (used after key start ≡ used r key start)

allow-Step :
    (r : RateLimiter) (key : String) (start : ℕ) (a : ℕ × String)
    → start < a.0
    → a.0 - r.window ≤ start
    → Step r key start a
unfolding allow attempts_of used
allow-Step r key start a h k = elim (Bool-cases (leb r.max (length ts))) [
  | inl e ↦ record {
    after = record r { attempts = (a.1, ts) ∷ r.attempts };
    answer = false;
    step = rw (e, allow);
    max = refl;
    window = refl;
    effect = elim (==-cases a.1 key) [
      | inl (x, y) ↦ inr (
        ground (arith, y),
        ap length (ap (kept start) (attempts_of-same a.1 key ts r.attempts y) ∙ mine x),
      )
      | inr (x, y) ↦ inr (
        ground (arith, y),
        ap length (ap (kept start) (attempts_of-other a.1 key ts r.attempts y)),
      )
    ];
  }
  | inr e ↦ record {
    after = record r { attempts = (a.1, ts ++ a.0 ∷ []) ∷ r.attempts };
    answer = true;
    step = rw (e, allow);
    max = refl;
    window = refl;
    effect = elim (==-cases a.1 key) [
      | inl (x, y) ↦ inl (
        ground (arith, y),
        ap length (ap (kept start) (attempts_of-same a.1 key (ts ++ a.0 ∷ []) r.attempts y))
            ∙ length-kept-concat start a.0 ts h
            ∙ ap suc (ap length (mine x)),
        ground (arith, length-kept start ts, ap length (mine x)),
      )
      | inr (x, y) ↦ inr (
        ground (arith, y),
        ap length (ap (kept start) (attempts_of-other a.1 key (ts ++ a.0 ∷ []) r.attempts y)),
      )
    ];
  }
]
  where
    ts : List ℕ
    ts = kept (a.0 - r.window) (attempts_of a.1 r.attempts)

    mine : a.1 ≡ key → kept start ts ≡ kept start (attempts_of key r.attempts)
    mine x =
        kept-kept (a.0 - r.window) start (attempts_of a.1 r.attempts) k
        ∙ ap (λ t. kept start (attempts_of t r.attempts)) x

granted-used :
    (r : RateLimiter) (key : String) (start : ℕ) (attempts : List (ℕ × String))
    → InWindow start r.window attempts
    → (granted r key attempts + used r key start ≤ r.max) ⊎ (granted r key attempts ≡ 0)
unfolding granted
granted-used r key start [] w = inr refl
granted-used r key start (a ∷ rest) w =
    let s = allow-Step r key start a w.0.0 w.0.1 in
    let later =
      granted-used s.after key start rest (subst (λ t. InWindow start t rest) (sym s.window) w.1) in
    rw s.step (ground (arith, later, s.effect, s.max))

-- Of the attempts in one window, the limiter lets at most `max` through for a key.
pub granted-max :
    (r : RateLimiter) (key : String) (start : ℕ) (attempts : List (ℕ × String))
    → InWindow start r.window attempts
    → granted r key attempts ≤ r.max
granted-max r key start attempts w = ground (arith, granted-used r key start attempts w)
