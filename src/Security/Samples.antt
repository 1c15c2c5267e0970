-- ===== src/Security/Samples.antt =====
-- The theorems on the limiter, for three attempts, and on the box for secrets, with a cipher that adds
-- nothing and an encoding that marks its texts.
use sd_wan_plus.Base.{ℕ, String, ◌≡◌, refl, ◌≤◌, Option, some, none, List, [], ◌∷◌, arith}
use sd_wan_plus.Security.Limiter.{RateLimiter, granted, InWindow, granted-max}
use sd_wan_plus.Security.Secrets.{Ciphers, IsCiphers, encrypt, decrypt, decrypt-encrypt}

abbrev limiter : RateLimiter
limiter = record { attempts = []; max = 2; window = 60 }

abbrev attempts : List (ℕ × String)
attempts = (101, "ip") ∷ (102, "ip") ∷ (103, "ip") ∷ []

attempts-InWindow : InWindow 100 60 attempts
attempts-InWindow =
    ((omega arith, omega arith), ((omega arith, omega arith), ((omega arith, omega arith), tt)))

granted-max_example : granted limiter "ip" attempts ≤ 2
granted-max_example = granted-max limiter "ip" 100 attempts attempts-InWindow

abbrev unmarked : List ℕ → Option (List ℕ)
unmarked [] = none
unmarked (b ∷ bs) = some bs

abbrev ciphers : Ciphers
ciphers = record {
  nonce_size = 2;
  aead_seal = λ nonce plain. 0 ∷ plain;
  aead_open = λ nonce sealed. unmarked sealed;
  encode_base64 = λ bytes. 1 ∷ bytes;
  decode_base64 = unmarked;
}

ciphers-IsCiphers : IsCiphers ciphers
ciphers-IsCiphers = record { open_seal = λ nonce plain. refl; decode_encode = λ bytes. refl }

decrypt-encrypt_example :
    decrypt ciphers (encrypt ciphers (7 ∷ 9 ∷ []) (104 ∷ 105 ∷ [])) ≡ some (104 ∷ 105 ∷ [])
decrypt-encrypt_example =
    decrypt-encrypt ciphers ciphers-IsCiphers (7 ∷ 9 ∷ []) (104 ∷ 105 ∷ []) refl
