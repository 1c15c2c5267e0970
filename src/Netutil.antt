-- ===== src/Netutil.antt =====
-- internal/netutil: which addresses another site can dial. The parsers of Go's package net are
-- parameters.
pub mod Dialable
mod Samples
use sd_wan_plus.Base.{
  ℕ, zero, suc, ◌+◌, ◌*◌, ◌/◌, ◌%◌, String, ◌==◌, Bool, true, false, not, ◌&&◌, ◌||◌, Option, some,
  none, List, [], ◌∷◌, if◌then◌else◌, eqb, leb, trim_space, trim_set, equal_fold, has_suffix_fold,
}

-- What net.ParseIP returns: the octets of an address that To4 accepts, or all sixteen.
pub data Ip : Type 0 where
  v4 : ℕ → ℕ → ℕ → ℕ → Ip
  v6 : List ℕ → Ip

-- The number that a list of octets spells.
unfoldable pub value_from : ℕ → List ℕ → ℕ
value_from n [] = n
value_from n (o ∷ os) = value_from (n * 256 + o) os

unfoldable pub octet : List ℕ → ℕ → ℕ
octet [] i = 0
octet (o ∷ os) zero = o
octet (o ∷ os) (suc i) = octet os i

-- The methods IsLoopback, IsUnspecified, IsLinkLocalUnicast and IsLinkLocalMulticast of net.IP.
unfoldable pub is_loopback : Ip → Bool
is_loopback (v4 a b c d) = eqb a 127
is_loopback (v6 os) = eqb (value_from 0 os) 1

unfoldable pub is_unspecified : Ip → Bool
is_unspecified (v4 a b c d) = eqb a 0 && eqb b 0 && eqb c 0 && eqb d 0
is_unspecified (v6 os) = eqb (value_from 0 os) 0

unfoldable pub is_link_local_unicast : Ip → Bool
is_link_local_unicast (v4 a b c d) = eqb a 169 && eqb b 254
is_link_local_unicast (v6 os) = eqb (octet os 0) 254 && eqb (octet os 1 / 64) 2

unfoldable pub is_link_local_multicast : Ip → Bool
is_link_local_multicast (v4 a b c d) = eqb a 224 && eqb b 0 && eqb c 0
is_link_local_multicast (v6 os) = eqb (octet os 0) 255 && eqb (octet os 1 % 16) 2

-- The tests on an address with four octets.
unfoldable pub public_v4 : ℕ → ℕ → Bool
public_v4 a b =
    if eqb a 10
    then false
    else if eqb a 172 && leb 16 b && leb b 31
    then false
    else if eqb a 192 && eqb b 168
    then false
    else if eqb a 100 && leb 64 b && leb b 127
    then false
    else if eqb a 169 && eqb b 254
    then false
    else true

-- fc00::/7
unfoldable pub public_v6 : List ℕ → Bool
public_v6 os = if eqb (octet os 0 / 2) 126 then false else true

unfoldable pub public_family : Ip → Bool
public_family (v4 a b c d) = public_v4 a b
public_family (v6 os) = public_v6 os

unfoldable pub public_ip : Ip → Bool
public_ip ip =
    if is_loopback ip || is_unspecified ip || is_link_local_unicast ip || is_link_local_multicast ip
    then false
    else public_family ip

-- A name that is no address is taken for public unless it ends in .local.
unfoldable pub public_host : String → Option Ip → Bool
public_host host none = not (has_suffix_fold host ".local")
public_host host (some ip) = public_ip ip

unfoldable pub host_or : String → Option (String × String) → String
host_or host none = host
host_or host (some (h, p)) = h

module _ (split_host_port : String → Option (String × String)) (parse_ip : String → Option Ip) where
  unfoldable pub is_public_dialable : String → Bool
  is_public_dialable addr =
      let trimmed = trim_space addr in
      let bare = trim_set trimmed "[]" in
      let host = host_or bare (split_host_port bare) in
      if trimmed == "" then false else public_host host (parse_ip host)

  -- An (address, type) pair.
  abbrev pub Candidate : Type 0
  Candidate = String × String

  -- The first loop of PreferDialableAddress; `none` where it goes through.
  unfoldable pub first_not_lan : List Candidate → Option String
  first_not_lan [] = none
  first_not_lan (a ∷ rest) =
      let later = first_not_lan rest in
      if equal_fold a.1 "lan" then later else if is_public_dialable a.0 then some a.0 else later

  -- The second loop.
  unfoldable pub first_of_any : List Candidate → Option String
  first_of_any [] = none
  first_of_any (a ∷ rest) =
      let later = first_of_any rest in if is_public_dialable a.0 then some a.0 else later

  unfoldable pub prefer_dialable_address : List Candidate → String
  prefer_dialable_address addrs = elim (first_not_lan addrs) [
    | some a ↦ a
    | none ↦ elim (first_of_any addrs) [ some a ↦ a | none ↦ "" ]
  ]
