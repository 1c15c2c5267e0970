-- ===== src/Netd/Uapi.antt =====
-- internal/netd/wg_userspace.go: the configuration text of one WireGuard device, as the list of its
-- lines. The parsers, the resolver and base64 are parameters.
use sd_wan_plus.Base.{
  ℕ, String, ◌==◌, eq_iff, ◌≡◌, ◌≢◌, refl, sym, ap, ◌∙◌, ◌⊎◌, inl, inr, ◌↔◌, true, false,
  Bool-cases, ==-cases, Option-cases, ◌||◌, Option, some, none, List, [], ◌∷◌, ◌++◌, if◌then◌else◌,
  eqb, ltb, contains, trim_space, contains_char, decimal, str_append, length, arith,
}
use sd_wan_plus.Netutil.{Ip, v4, v6}
use sd_wan_plus.Routing.Types.{WireGuardLinkCfg}

-- What the daemon uses of its environment.
pub record Resolver : Type 0 where
  pub decode_base64 : String → Option (List ℕ)
  pub encode_hex : List ℕ → String
  pub split_host_port : String → Option (String × String)
  pub parse_ip : String → Option Ip
  pub lookup_ip : String → Option (List Ip)
  pub join_host_port : Ip → String → String

-- The text of the lines of `AllowedIPs`.
unfoldable pub with_mask : String → String
with_mask ip = if contains_char 47 ip then ip else str_append ip "/32"

unfoldable pub allowed_lines : (seen : List String) → List String → List String
allowed_lines seen [] = []
allowed_lines seen (a ∷ rest) =
    let ip = trim_space a in
    let skip = allowed_lines seen rest in
    let emit = allowed_lines (with_mask ip ∷ seen) rest in
    if ip == "" || contains seen ip then skip else with_mask ip ∷ emit

unfoldable pub first_v4 : List Ip → Option Ip
first_v4 [] = none
first_v4 (v4 a b c d ∷ ips) = some (v4 a b c d)
first_v4 (v6 os ∷ ips) = first_v4 ips

unfoldable pub chosen : Ip → Option Ip → Ip
chosen first none = first
chosen first (some ip) = ip

module _ (r : Resolver) where
  unfoldable pub hex_of : List ℕ → Option String
  hex_of raw = if eqb (length raw) 32 then some (r.encode_hex raw) else none

  unfoldable pub key_to_hex : String → Option String
  key_to_hex b64 =
      let t = trim_space b64 in
      if t == "" then none else elim (r.decode_base64 t) [ none ↦ none | some raw ↦ hex_of raw ]

  unfoldable pub looked_up : String → Option (List Ip) → Option String
  looked_up port none = none
  looked_up port (some []) = none
  looked_up port (some (ip ∷ ips)) = some (r.join_host_port (chosen ip (first_v4 (ip ∷ ips))) port)

  unfoldable pub resolve_host : String → String → String → Option String
  resolve_host ep host port = elim (r.parse_ip host) [
    | some ip ↦ some ep
    | none ↦ looked_up port (r.lookup_ip host)
  ]

  -- `none` for an error; the code then keeps the endpoint as it is.
  unfoldable pub resolve_endpoint : String → Option String
  resolve_endpoint ep = elim (r.split_host_port ep) [
    | none ↦ none
    | some (host, port) ↦ resolve_host ep host port
  ]

  unfoldable pub resolved_or : String → Option String → String
  resolved_or ep none = ep
  resolved_or ep (some t) = t

  unfoldable pub port_lines : ℕ → List String
  port_lines port = if ltb 0 port then str_append "listen_port=" (decimal port) ∷ [] else []

  -- The lines on the endpoint, or none for an initiator without one.
  unfoldable pub endpoint_lines : WireGuardLinkCfg → Option (List String)
  endpoint_lines l =
      let endpoint = trim_space l.peer_endpoint in
      let ka = if eqb l.persistent_keepalive 0 then 25 else l.persistent_keepalive in
      if endpoint == ""
      then if l.is_initiator then none else some []
      else some (
          str_append "endpoint=" (resolved_or endpoint (resolve_endpoint endpoint))
          ∷ str_append "persistent_keepalive_interval=" (decimal ka)
          ∷ [])

  abbrev pub prefixed : List String → List String
  prefixed [] = []
  prefixed (ip ∷ ips) = str_append "allowed_ip=" ip ∷ prefixed ips

  unfoldable pub uapi_lines :
      WireGuardLinkCfg → String → String → Option (List String) → Option (List String)
  uapi_lines l priv public none = none
  uapi_lines l priv public (some lines) = some (
      str_append "private_key=" priv ∷ port_lines l.listen_port
      ++ "replace_peers=true"
        ∷ str_append "public_key=" public
        ∷ prefixed (allowed_lines [] l.allowed_ips)
      ++ lines)

  unfoldable pub build_uapi : WireGuardLinkCfg → Option (List String)
  build_uapi l = elim (key_to_hex l.node_private_key) [
    | none ↦ none
    | some priv ↦ elim (key_to_hex l.peer_public_key) [
      | none ↦ none
      | some public ↦ uapi_lines l priv public (endpoint_lines l)
    ]
  ]

  -- A WireGuard key: base64 of 32 bytes, without the blanks around it.
  abbrev pub IsKey : String → Type 0
  IsKey text =
      (trim_space text ≢ "")
      × ((raw : List ℕ) × (r.decode_base64 (trim_space text) ≡ some raw) × (length raw ≡ 32))

  key_to_hex-IsKey : (text : String) → IsKey text ⊎ ((key_to_hex text ≡ none) × (¬ IsKey text))
  unfolding key_to_hex hex_of
  key_to_hex-IsKey text = elim (==-cases (trim_space text) "") [
    | inl (e, t) ↦ inr (rw (t, key_to_hex) refl, λ k. k.0 e)
    | inr (e, t) ↦ elim (Option-cases (r.decode_base64 (trim_space text))) [
      | inl d ↦ inr (rw (t, key_to_hex, d) refl, λ k. let (_, (raw, x, _)) = k in cc)
      | inr (raw, d) ↦ elim (Bool-cases (eqb (length raw) 32)) [
        | inl n ↦ inl (e, (raw, d, ground arith))
        | inr n ↦ inr (
          rw (t, key_to_hex, d, hex_of, n) refl,
          λ k.
              let (_, (other, x, size)) = k in
              let same : other ≡ raw = cc in absurd (different raw other same size n),
        )
      ]
    ]
  ]
    where
      different :
          (raw other : List ℕ) → other ≡ raw → length other ≡ 32 → eqb (length raw) 32 ≡ false → ⊥
      different raw other e size n =
          let k : length raw ≡ 32 = sym (ap length e) ∙ size in ground arith

  key_to_hex-some : (text : String) → IsKey text → key_to_hex text ≢ none
  unfolding key_to_hex hex_of
  key_to_hex-some text (e, (raw, d, size)) = elim (==-cases (trim_space text) "") [
    | inl (x, t) ↦ absurd (e x)
    | inr (x, t) ↦
        let n : eqb (length raw) 32 ≡ true = ground arith in
        rw (t, key_to_hex, d, hex_of, n) (λ y. cc)
  ]

  refusals :
      (l : WireGuardLinkCfg)
      → (build_uapi l ≡ none) ↔ (
          (key_to_hex l.node_private_key ≡ none)
          ⊎ (key_to_hex l.peer_public_key ≡ none)
          ⊎ (l.is_initiator ≡ true) × (trim_space l.peer_endpoint ≡ ""))
  unfolding build_uapi uapi_lines endpoint_lines
  refusals l = ground (arith, eq_iff (trim_space l.peer_endpoint) "")

  -- A configuration text is refused exactly where one of the keys is not base64 of 32 bytes, or an
  -- initiator has no endpoint to dial.
  pub build_uapi-none_iff :
      (l : WireGuardLinkCfg)
      → (build_uapi l ≡ none) ↔ (
          (¬ IsKey l.node_private_key)
          ⊎ (¬ IsKey l.peer_public_key)
          ⊎ (l.is_initiator ≡ true) × (trim_space l.peer_endpoint ≡ ""))
  build_uapi-none_iff l =
      ground (arith, refusals l, key_none l.node_private_key, key_none l.peer_public_key)
    where
      key_none : (text : String) → (key_to_hex text ≡ none) ↔ (¬ IsKey text)
      key_none text = (
        λ e k. key_to_hex-some text k e,
        λ f. elim (key_to_hex-IsKey text) [ inl k ↦ absurd (f k) | inr p ↦ p.0 ],
      )
