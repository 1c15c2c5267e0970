-- ===== src/Netutil/Dialable.antt =====
-- What `IsPublicDialable` and `PreferDialableAddress` answer.
use sd_wan_plus.Base.{
  ℕ, ◌≤◌, String, ◌≡◌, refl, ◌↔◌, ◌⊎◌, inl, inr, true, false, Option, some, none, List, [], ◌∷◌,
  Bool-cases, Any, equal_fold, arith,
}
use sd_wan_plus.Netutil.{
  Ip, v4, public_ip, public_family, public_v4, is_loopback, is_unspecified, is_link_local_unicast,
  is_link_local_multicast, is_public_dialable, first_not_lan, first_of_any, prefer_dialable_address,
}

-- The ranges of the special-purpose registry that the code names: this host, private use (10/8,
-- 172.16/12, 192.168/16), shared (100.64/10), loopback, link-local unicast and multicast.
abbrev pub Special : ℕ → ℕ → ℕ → ℕ → Type 0
Special a b c d =
    (a ≡ 10)
    ⊎ (a ≡ 127)
    ⊎ (a ≡ 0) × (b ≡ 0) × (c ≡ 0) × (d ≡ 0)
    ⊎ (a ≡ 172) × (16 ≤ b) × (b ≤ 31)
    ⊎ (a ≡ 192) × (b ≡ 168)
    ⊎ (a ≡ 100) × (64 ≤ b) × (b ≤ 127)
    ⊎ (a ≡ 169) × (b ≡ 254)
    ⊎ (a ≡ 224) × (b ≡ 0) × (c ≡ 0)

-- The checks of an IPv4 address in `IsPublicDialable` refuse exactly 10/8, 127/8, 0.0.0.0,
-- 172.16/12, 192.168/16, 100.64/10, 169.254/16 and 224.0.0/24.
pub public_ip-v4_iff : (a b c d : ℕ) → (public_ip (v4 a b c d) ≡ false) ↔ Special a b c d
unfolding public_ip public_family public_v4 is_loopback is_unspecified is_link_local_unicast
    is_link_local_multicast
public_ip-v4_iff a b c d = ground arith

module _ (split_host_port : String → Option (String × String)) (parse_ip : String → Option Ip) where
  -- The candidate can be dialled, and `r` is its address.
  abbrev pub Dials : String → String × String → Type 0
  Dials r a = (is_public_dialable split_host_port parse_ip a.0 ≡ true) × (a.0 ≡ r)

  -- The same, for a candidate that is not of the type "lan".
  abbrev pub DialsAbroad : String → String × String → Type 0
  DialsAbroad r a = (equal_fold a.1 "lan" ≡ false) × Dials r a

  first_not_lan-cases :
      (addrs : List (String × String))
      → ((r : String) × (first_not_lan split_host_port parse_ip addrs ≡ some r)
          × Any (DialsAbroad r) addrs)
        ⊎ (first_not_lan split_host_port parse_ip addrs ≡ none)
          × ((r : String) → ¬ Any (DialsAbroad r) addrs)
  unfolding first_not_lan
  first_not_lan-cases [] = inr (refl, λ r h. h)
  first_not_lan-cases (a ∷ addrs) = elim (Bool-cases (equal_fold a.1 "lan")) [
    | inl e ↦ elim (first_not_lan-cases addrs) [
      | inl (r, h, k) ↦ inl (r, rw (e, first_not_lan) h, inr k)
      | inr (h, k) ↦ inr (rw (e, first_not_lan) h, λ r. ground (arith, k r))
    ]
    | inr e ↦ elim (Bool-cases (is_public_dialable split_host_port parse_ip a.0)) [
      | inl d ↦ inl (a.0, rw (e, d, first_not_lan), inl (e, (d, refl)))
      | inr d ↦ elim (first_not_lan-cases addrs) [
        | inl (r, h, k) ↦ inl (r, rw (e, d, first_not_lan) h, inr k)
        | inr (h, k) ↦ inr (rw (e, d, first_not_lan) h, λ r. ground (arith, k r))
      ]
    ]
  ]

  first_of_any-cases :
      (addrs : List (String × String))
      → ((r : String) × (first_of_any split_host_port parse_ip addrs ≡ some r)
          × Any (Dials r) addrs)
        ⊎ (first_of_any split_host_port parse_ip addrs ≡ none)
          × ((r : String) → ¬ Any (Dials r) addrs)
  unfolding first_of_any
  first_of_any-cases [] = inr (refl, λ r h. h)
  first_of_any-cases (a ∷ addrs) =
      elim (Bool-cases (is_public_dialable split_host_port parse_ip a.0)) [
        | inl d ↦ inl (a.0, rw (d, first_of_any), inl (d, refl))
        | inr d ↦ elim (first_of_any-cases addrs) [
          | inl (r, h, k) ↦ inl (r, rw (d, first_of_any) h, inr k)
          | inr (h, k) ↦ inr (rw (d, first_of_any) h, λ r. ground (arith, k r))
        ]
      ]

  -- `PreferDialableAddress` returns the address of a candidate that can be dialled and is not of the
  -- type "lan", where there is one; else that of a candidate that can be dialled, where there is one;
  -- else the empty text.
  pub prefer_dialable_address-cases :
      (addrs : List (String × String))
      → let r = prefer_dialable_address split_host_port parse_ip addrs in
        Any (DialsAbroad r) addrs
        ⊎ ((t : String) → ¬ Any (DialsAbroad t) addrs) × Any (Dials r) addrs
        ⊎ ((t : String) → ¬ Any (Dials t) addrs) × (r ≡ "")
  unfolding prefer_dialable_address
  prefer_dialable_address-cases addrs = elim (first_not_lan-cases addrs) [
    | inl (r, h, k) ↦ inl (rw (h, prefer_dialable_address) k)
    | inr (h, k) ↦ elim (first_of_any-cases addrs) [
      | inl (r, x, y) ↦ inr (inl (k, rw (h, x, prefer_dialable_address) y))
      | inr (x, y) ↦ inr (inr (y, rw (h, x, prefer_dialable_address)))
    ]
  ]
