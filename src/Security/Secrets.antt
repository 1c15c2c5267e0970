-- ===== src/Security/Secrets.antt =====
-- `SecretBox`, the parts of an encoded password, and `clampWG`. A byte is a number below 256.
use sd_wan_plus.Base.{
  ℕ, suc, ◌+◌, ◌*◌, ◌/◌, ◌%◌, ◌≡◌, refl, sym, ap, ◌∙◌, subst, true, false, Option, some, none, List,
  [], ◌∷◌, ◌++◌, if◌then◌else◌, ltb, eqb, length, length-append, take, drop, take-append,
  drop-append, arith, Bool-cases, inl, inr, append-nil, append_assoc,
}

-- What the box uses of its environment: an AEAD cipher and base64. A Go string is the list of its
-- bytes here.
pub record Ciphers : Type 0 where
  pub nonce_size : ℕ
  pub aead_seal : List ℕ → List ℕ → List ℕ
  pub aead_open : List ℕ → List ℕ → Option (List ℕ)
  pub encode_base64 : List ℕ → List ℕ
  pub decode_base64 : List ℕ → Option (List ℕ)

-- The documented behaviour of the two: opening undoes sealing, and decoding undoes encoding.
pub record IsCiphers (c : Ciphers) : Type 0 where
  pub open_seal : (nonce plain : List ℕ) → c.aead_open nonce (c.aead_seal nonce plain) ≡ some plain
  pub decode_encode : (bytes : List ℕ) → c.decode_base64 (c.encode_base64 bytes) ≡ some bytes

module _ (c : Ciphers) where
  -- `nonce` is what the source of random bytes gave.
  unfoldable pub encrypt : (nonce : List ℕ) → List ℕ → List ℕ
  encrypt nonce plain = c.encode_base64 (nonce ++ c.aead_seal nonce plain)

  unfoldable pub open_data : List ℕ → Option (List ℕ)
  open_data bytes =
      let opened = c.aead_open (take c.nonce_size bytes) (drop c.nonce_size bytes) in
      if ltb (length bytes) c.nonce_size then none else opened

  -- `none` for an error.
  unfoldable pub decrypt : List ℕ → Option (List ℕ)
  decrypt cipher_b64 = elim (c.decode_base64 cipher_b64) [
    | none ↦ none
    | some bytes ↦ open_data bytes
  ]

-- What SecretBox.Encrypt returns, with a nonce of the cipher's size, SecretBox.Decrypt turns back into
-- the text, if the cipher opens what it sealed and base64 decodes what it encoded.
pub decrypt-encrypt :
    (c : Ciphers)
    → IsCiphers c
    → (nonce plain : List ℕ) → length nonce ≡ c.nonce_size
    → decrypt c (encrypt c nonce plain) ≡ some plain
unfolding decrypt encrypt open_data
decrypt-encrypt c laws nonce plain size =
    let body = c.aead_seal nonce plain in
    let long : ltb (length (nonce ++ body)) c.nonce_size ≡ false =
      ground (arith, length-append nonce body, size) in
    rw
      (
        decrypt,
        encrypt,
        laws.decode_encode (nonce ++ body),
        open_data,
        long,
        sym size,
        take-append nonce body,
        drop-append nonce body,
      )
      (laws.open_seal nonce plain)

-- The parts between the separators, a text being the list of its bytes and "$" the byte 36; `part` is
-- s[start:i], the part that is being read.
unfoldable pub split_dollar_from : (part : List ℕ) → List ℕ → List (List ℕ)
split_dollar_from part [] = part ∷ []
split_dollar_from part (b ∷ bs) =
    let cut = split_dollar_from [] bs in
    let on = split_dollar_from (part ++ b ∷ []) bs in if eqb b 36 then part ∷ cut else on

unfoldable pub split_dollar : List ℕ → List (List ℕ)
split_dollar s = split_dollar_from [] s

-- The parts with the separators between them.
abbrev pub join_dollar : List (List ℕ) → List ℕ
join_dollar [] = []
join_dollar (p ∷ []) = p
join_dollar (p ∷ q ∷ ps) = p ++ 36 ∷ join_dollar (q ∷ ps)

abbrev pub dollars : List ℕ → ℕ
dollars [] = 0
dollars (b ∷ bs) = let rest = dollars bs in if eqb b 36 then suc rest else rest

length-split_dollar_from : (part s : List ℕ) → length (split_dollar_from part s) ≡ suc (dollars s)
unfolding split_dollar_from
length-split_dollar_from part [] = refl
length-split_dollar_from part (b ∷ bs) =
    ground (arith, length-split_dollar_from [] bs, length-split_dollar_from (part ++ b ∷ []) bs)

split_dollar_from-cons :
    (part s : List ℕ) → (q : List ℕ) × (ps : List (List ℕ)) × (split_dollar_from part s ≡ q ∷ ps)
unfolding split_dollar_from
split_dollar_from-cons part [] = (part, [], refl)
split_dollar_from-cons part (b ∷ bs) = elim (Bool-cases (eqb b 36)) [
  | inl e ↦ (part, split_dollar_from [] bs, rw (e, split_dollar_from) refl)
  | inr e ↦
      let (q, ps, h) = split_dollar_from-cons (part ++ b ∷ []) bs in
      (q, ps, rw (e, split_dollar_from) h)
]

join_dollar-cons :
    (p s : List ℕ)
    → join_dollar (p ∷ split_dollar_from [] s) ≡ p ++ 36 ∷ join_dollar (split_dollar_from [] s)
join_dollar-cons p s =
    let (q, ps, h) = split_dollar_from-cons [] s in
    subst (λ t. join_dollar (p ∷ t) ≡ p ++ 36 ∷ join_dollar t) (sym h) refl

join-split_dollar_from : (part s : List ℕ) → join_dollar (split_dollar_from part s) ≡ part ++ s
unfolding split_dollar_from
join-split_dollar_from part [] = sym (append-nil part)
join-split_dollar_from part (b ∷ bs) = elim (Bool-cases (eqb b 36)) [
  | inl e ↦
      rw (e, split_dollar_from)
        (join_dollar-cons part bs
          ∙ ap (λ t. part ++ 36 ∷ t) (join-split_dollar_from [] bs)
          ∙ ap (λ t. part ++ t ∷ bs) (sym (eqb→eq b 36 e)))
  | inr e ↦
      rw (e, split_dollar_from)
        (join-split_dollar_from (part ++ b ∷ []) bs ∙ append_assoc part (b ∷ []) bs)
]
  where
    eqb→eq : (m n : ℕ) → eqb m n ≡ true → m ≡ n
    eqb→eq m n h = ground arith

-- `splitDollar` gives one part more than there are "$", and the parts with "$" between them are the
-- text again.
pub split_dollar-parts :
    (s : List ℕ) → (length (split_dollar s) ≡ suc (dollars s)) × (join_dollar (split_dollar s) ≡ s)
unfolding split_dollar
split_dollar-parts s = (length-split_dollar_from [] s, join-split_dollar_from [] s)

-- k[0] &= 248
unfoldable pub clamp_first : ℕ → ℕ
clamp_first b = b / 8 * 8

-- k[31] &= 127; k[31] |= 64
unfoldable pub clamp_last : ℕ → ℕ
clamp_last b = b % 64 + 64

-- The bytes from the one at index `i` on.
unfoldable pub clamp_from : ℕ → List ℕ → List ℕ
clamp_from i [] = []
clamp_from i (b ∷ bs) =
    let rest = clamp_from (suc i) bs in
    (if eqb i 0 then clamp_first b else if eqb i 31 then clamp_last b else b) ∷ rest

unfoldable pub clamp_wg : List ℕ → List ℕ
clamp_wg k = clamp_from 0 k

clamp_last-again : (b : ℕ) → clamp_last (clamp_last b) ≡ clamp_last b
unfolding clamp_last
clamp_last-again b = omega arith

clamp_first-again : (b : ℕ) → clamp_first (clamp_first b) ≡ clamp_first b
unfolding clamp_first
clamp_first-again b = omega arith

clamp_from-again : (i : ℕ) (bs : List ℕ) → clamp_from i (clamp_from i bs) ≡ clamp_from i bs
unfolding clamp_from
clamp_from-again i [] = refl
clamp_from-again i (b ∷ bs) =
    ground (arith, clamp_last-again b, clamp_first-again b, clamp_from-again (suc i) bs)

-- Clamping a clamped key changes nothing.
pub clamp_wg_idem : (k : List ℕ) → clamp_wg (clamp_wg k) ≡ clamp_wg k
unfolding clamp_wg
clamp_wg_idem k = clamp_from-again 0 k
