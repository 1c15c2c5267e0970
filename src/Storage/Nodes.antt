-- ===== src/Storage/Nodes.antt =====
-- internal/storage/nodes.go: `AllocateOverlayIPv4`. The parser net.ParseCIDR is a parameter: it
-- returns the network's address and the number of its leading bits.
use sd_wan_plus.Base.{
  ℕ, zero, suc, ◌+◌, ◌-◌, ◌*◌, ◌/◌, ◌%◌, ◌^◌, ◌≤◌, ◌<◌, String, ◌≡◌, refl, sym, subst, ◌∙◌, ◌⊎◌,
  inl, inr, Bool, true, false, Option, some, none, List, map, eqb, contains, contains_iff, Member,
  str_append, decimal, arith, Bool-cases,
}
use sd_wan_plus.Core.Types.{Node}
use sd_wan_plus.Netutil.{Ip, v4, v6}
use sd_wan_plus.Storage.Tables.{Db}

-- The text of an address.
unfoldable pub dotted : ℕ → ℕ → ℕ → ℕ → String
dotted a b c d = str_append (decimal a) (
    str_append "." (
      str_append (decimal b)
        (str_append "." (str_append (decimal c) (str_append "." (decimal d))))))

abbrev pub address_value : ℕ → ℕ → ℕ → ℕ → ℕ
address_value a b c d = ((a * 256 + b) * 256 + c) * 256 + d

-- The network of an IPv4 prefix.
pub record Network : Type 0 where
  pub a : ℕ
  pub b : ℕ
  pub c : ℕ
  pub d : ℕ
  pub ones : ℕ

-- ipNet.Contains
unfoldable pub inside : Network → ℕ → ℕ → ℕ → ℕ → Bool
inside net a b c d =
    let size = 2 ^ (32 - net.ones) in
    eqb (address_value a b c d / size) (address_value net.a net.b net.c net.d / size)

abbrev pub overlays : List Node → List String
overlays = map (λ n. n.overlay_ipv4)

-- The candidate at `i`: the network's first two octets, then byte(i >> 8) and byte(i).
abbrev pub candidate : Network → ℕ → String
candidate net i = dotted net.a net.b (i / 256 % 256) (i % 256)

abbrev pub candidate_inside : Network → ℕ → Bool
candidate_inside net i = inside net net.a net.b (i / 256 % 256) (i % 256)

-- The loop from `i`, for `rounds` candidates; `none` for "overlay pool exhausted".
unfoldable pub free_overlay : List String → Network → (rounds : ℕ) → ℕ → Option String
free_overlay used net zero i = none
free_overlay used net (suc rounds) i = elim (candidate_inside net i) [
  | false ↦ none
  | true ↦ elim (contains used (candidate net i)) [
    | false ↦ some (candidate net i)
    | true ↦ free_overlay used net rounds (suc i)
  ]
]

unfoldable pub overlay_in : Db → Ip → ℕ → Option String
overlay_in db (v4 a b c d) ones =
    free_overlay (overlays db.nodes) (record { a = a; b = b; c = c; d = d; ones = ones }) 65533 1
overlay_in db (v6 os) ones = none

-- The address, none for an error.
unfoldable pub allocate_overlay_ipv4 :
    (parse_cidr : String → Option (Ip × ℕ)) → Db → String → Option String
allocate_overlay_ipv4 parse_cidr db cidr = elim (parse_cidr cidr) [
  | none ↦ none
  | some (ip, ones) ↦ overlay_in db ip ones
]

-- An address that a search may return: that of a candidate in the network, which no node has, while
-- those before it are all taken.
pub record Fresh (used : List String) (net : Network) (start : ℕ) (s : String) : Type 0 where
  pub i : ℕ
  pub is_candidate : s ≡ candidate net i
  pub in_network : candidate_inside net i ≡ true
  pub unused : ¬ Member s used
  pub from_start : start ≤ i
  pub taken : (j : ℕ) → start ≤ j → j < i → Member (candidate net j) used

Fresh-next :
    {used : List String} {net : Network} {start : ℕ} {s : String}
    → Member (candidate net start) used
    → Fresh used net (suc start) s
    → Fresh used net start s
Fresh-next {used} {net} {start} m f = record {
  i = f.i;
  is_candidate = f.is_candidate;
  in_network = f.in_network;
  unused = f.unused;
  from_start = omega (arith, f.from_start);
  taken = taken;
}
  where
    split_le : (m n : ℕ) → m ≤ n → (m ≡ n) ⊎ (suc m ≤ n)
    split_le m n h = ground arith

    taken : (j : ℕ) → start ≤ j → j < f.i → Member (candidate net j) used
    taken j a b = elim (split_le start j a) [
      | inl e ↦ subst (λ t. Member (candidate net t) used) e m
      | inr k ↦ f.taken j k b
    ]

free_overlay-Fresh :
    (used : List String) (net : Network) (rounds i : ℕ) (s : String)
    → free_overlay used net rounds i ≡ some s
    → Fresh used net i s
unfolding free_overlay
free_overlay-Fresh used net zero i s h = absurd (cc h)
free_overlay-Fresh used net (suc rounds) i s h = elim (Bool-cases (candidate_inside net i)) [
  | inr e ↦ absurd (out e h)
  | inl e ↦ elim (Bool-cases (contains used (candidate net i))) [
    | inl t ↦
        Fresh-next ((contains_iff used (candidate net i)).0 t)
          (free_overlay-Fresh used net rounds (suc i) s (on e t h))
    | inr t ↦ record {
      i = i;
      is_candidate = sym (hit e t h);
      in_network = e;
      unused =
          subst (λ x. ¬ Member x used) (hit e t h)
            (λ m. absurd (cc ((contains_iff used (candidate net i)).1 m)));
      from_start = omega arith;
      taken = λ j a b. absurd (omega arith);
    }
  ]
]
  where
    out : candidate_inside net i ≡ false → ¬ (free_overlay used net (suc rounds) i ≡ some s)
    out e = rw (free_overlay, e) (λ x. cc)

    on :
        candidate_inside net i ≡ true
        → contains used (candidate net i) ≡ true
        → free_overlay used net (suc rounds) i ≡ some s
        → free_overlay used net rounds (suc i) ≡ some s
    on e t = rw (free_overlay, e, t) (λ x. x)

    hit :
        candidate_inside net i ≡ true
        → contains used (candidate net i) ≡ false
        → free_overlay used net (suc rounds) i ≡ some s
        → candidate net i ≡ s
    hit e t = rw (free_overlay, e, t) (λ x. some_inj x)
      where
        some_inj : {a b : String} → some a ≡ some b → a ≡ b
        some_inj h = cc

-- The overlay address that AllocateOverlayIPv4 returns lies in the network of the cidr, no node has
-- it, and every address before it, from the one at 1, is taken.
pub allocate_overlay_ipv4-Fresh :
    (parse_cidr : String → Option (Ip × ℕ)) (db : Db) (cidr s : String) (a b c d ones : ℕ)
    → parse_cidr cidr ≡ some (v4 a b c d, ones)
    → allocate_overlay_ipv4 parse_cidr db cidr ≡ some s
    → Fresh (overlays db.nodes) (record { a = a; b = b; c = c; d = d; ones = ones }) 1 s
unfolding allocate_overlay_ipv4 overlay_in
allocate_overlay_ipv4-Fresh parse_cidr db cidr s a b c d ones p h =
    free_overlay-Fresh (overlays db.nodes) (record { a = a; b = b; c = c; d = d; ones = ones })
      65533 1 s (sym run ∙ h)
  where
    run :
        allocate_overlay_ipv4 parse_cidr db cidr
        ≡ free_overlay
            (overlays db.nodes)
            (record { a = a; b = b; c = c; d = d; ones = ones })
            65533
            1
    run = rw (allocate_overlay_ipv4, p) refl
