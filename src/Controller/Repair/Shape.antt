-- ===== src/Controller/Repair/Shape.antt =====
-- The two ends of a link after repairLinkEndpoints.
use sd_wan_plus.Base.{
  ℕ, String, ◌≡◌, eq_iff, refl, ap, ◌∙◌, true, false, Option, none, some, if◌then◌else◌, ltb, arith,
  str_append, decimal, Bool-cases, inl, inr,
}
use sd_wan_plus.Core.Types.{WireGuardLink, WireGuardLinkEndpoint}
use sd_wan_plus.Routing.Links.{listener}
use sd_wan_plus.Controller.Repair.{
  Repair, points_to, is_some, set_init_endpoint, set_init_keepalive, set_listen_port,
  clear_init_port, clear_listen_endpoint, set_listen_keepalive, one_way, dial, set_listen_endpoint,
  reverse, dial_back, take_port,
}

points_to_iff : (o : Option String) (want : String) → points_to o want ≡ true → o ≡ some want
points_to_iff none want h = cc
points_to_iff (some p) want h = ap some ((eq_iff p want).0 h)

is_some-none : (o : Option String) → is_some o ≡ false → o ≡ none
is_some-none none h = refl
is_some-none (some p) h = cc

-- An address with a port, and the port that is left.
abbrev pub address : String → ℕ → String
address adv port = str_append adv (str_append ":" (decimal port))

abbrev pub get_or : ℕ → Option ℕ → ℕ
get_or port none = port
get_or port (some p) = p

-- Each assignment leaves the same ends whether it is made or found made.
module _ (r : Repair) where
  set_init_endpoint-ends :
      (want : String)
      → ((set_init_endpoint want r).init ≡ record r.init { peer_endpoint = some want })
        × ((set_init_endpoint want r).listen ≡ r.listen)
  unfolding set_init_endpoint
  set_init_endpoint-ends want = elim (Bool-cases (points_to r.init.peer_endpoint want)) [
    | inl e ↦ rw e (
      ap (λ t. record r.init { peer_endpoint = t }) (points_to_iff r.init.peer_endpoint want e),
      refl,
    )
    | inr e ↦ rw e (refl, refl)
  ]

  set_init_keepalive-ends :
      ((set_init_keepalive r).init ≡ record r.init { persistent_keepalive = 25 })
      × ((set_init_keepalive r).listen ≡ r.listen)
  unfolding set_init_keepalive
  set_init_keepalive-ends = ground arith

  set_listen_port-ends :
      (port : ℕ)
      → ((set_listen_port port r).init ≡ r.init)
        × ((set_listen_port port r).listen
            ≡ record r.listen { listen_port = if ltb 0 port then port else r.listen.listen_port })
  unfolding set_listen_port
  set_listen_port-ends port = ground arith

  clear_init_port-ends :
      ((clear_init_port r).init ≡ record r.init { listen_port = 0 })
      × ((clear_init_port r).listen ≡ r.listen)
  unfolding clear_init_port
  clear_init_port-ends = ground arith

  clear_listen_endpoint-ends :
      ((clear_listen_endpoint r).init ≡ r.init)
      × ((clear_listen_endpoint r).listen ≡ record r.listen { peer_endpoint = none })
  unfolding clear_listen_endpoint
  clear_listen_endpoint-ends = ground (arith, is_some-none r.listen.peer_endpoint)

  set_listen_keepalive-ends :
      (k : ℕ)
      → ((set_listen_keepalive k r).init ≡ r.init)
        × ((set_listen_keepalive k r).listen ≡ record r.listen { persistent_keepalive = k })
  unfolding set_listen_keepalive
  set_listen_keepalive-ends k = ground arith

  set_listen_endpoint-ends :
      (want : String)
      → ((set_listen_endpoint want r).init ≡ r.init)
        × ((set_listen_endpoint want r).listen ≡ record r.listen { peer_endpoint = some want })
  unfolding set_listen_endpoint
  set_listen_endpoint-ends want = elim (Bool-cases (points_to r.listen.peer_endpoint want)) [
    | inl e ↦ rw e (
      refl,
      ap (λ t. record r.listen { peer_endpoint = t }) (points_to_iff r.listen.peer_endpoint want e),
    )
    | inr e ↦ rw e (refl, refl)
  ]

-- The ends that `dial` leaves.
abbrev pub dialled_init : WireGuardLink → WireGuardLinkEndpoint → WireGuardLinkEndpoint
dialled_init l i = record i { peer_endpoint = some (listener l); persistent_keepalive = 25 }

abbrev pub dialled_listen : WireGuardLink → WireGuardLinkEndpoint → WireGuardLinkEndpoint
dialled_listen l e = record e {
  listen_port = if ltb 0 l.listener_port then l.listener_port else e.listen_port;
}

pub dial-ends :
    (l : WireGuardLink) (r : Repair)
    → ((dial l r).init ≡ dialled_init l r.init) × ((dial l r).listen ≡ dialled_listen l r.listen)
unfolding dial
dial-ends l r =
    let a = set_init_endpoint-ends r (listener l) in
    let b = set_init_keepalive-ends (set_init_endpoint (listener l) r) in
    let c =
      set_listen_port-ends (set_init_keepalive (set_init_endpoint (listener l) r))
        l.listener_port in
    (cc, cc)

-- The ends of the one-way shape.
pub one_way-ends :
    (l : WireGuardLink) (r : Repair)
    → ((one_way (dial l r)).init ≡ record (dialled_init l r.init) { listen_port = 0 })
      × ((one_way (dial l r)).listen
          ≡ record (dialled_listen l r.listen) { peer_endpoint = none; persistent_keepalive = 0 })
unfolding one_way
one_way-ends l r =
    let d = dial-ends l r in
    let a = clear_init_port-ends (dial l r) in
    let b = clear_listen_endpoint-ends (clear_init_port (dial l r)) in
    let c = set_listen_keepalive-ends (clear_listen_endpoint (clear_init_port (dial l r))) 0 in
    (cc, cc)

back-ends :
    (adv : String) (r : Repair)
    → ((dial_back adv r).init ≡ r.init)
      × ((dial_back adv r).listen ≡ record r.listen {
        peer_endpoint = some (address adv r.init.listen_port);
        persistent_keepalive = 25;
      })
unfolding dial_back reverse
back-ends adv r =
    let a = set_listen_endpoint-ends r (reverse adv r) in
    let b = set_listen_keepalive-ends (set_listen_endpoint (reverse adv r) r) 25 in (cc, cc)

-- The ends of the shape of both directions.
pub dial_back-ends :
    (adv : String) (l : WireGuardLink) (p : Option ℕ) (r : Repair)
    → ((dial_back adv (take_port p (dial l r))).init
        ≡ record (dialled_init l r.init) { listen_port = get_or r.init.listen_port p })
      × ((dial_back adv (take_port p (dial l r))).listen ≡ record (dialled_listen l r.listen) {
        peer_endpoint = some (address adv (get_or r.init.listen_port p));
        persistent_keepalive = 25;
      })
unfolding take_port
dial_back-ends adv l none r =
    let (d, e) = dial-ends l r in
    let (a, b) = back-ends adv (dial l r) in
    (
      a ∙ d,
      b ∙ λ i. record (e i) {
        peer_endpoint = some (address adv (d i).listen_port);
        persistent_keepalive = 25;
      },
    )
dial_back-ends adv l (some p) r =
    let (d, e) = dial-ends l r in
    let (a, b) = back-ends adv (take_port (some p) (dial l r)) in
    (
      a ∙ λ i. record (d i) { listen_port = p },
      b ∙ λ i. record (e i) { peer_endpoint = some (address adv p); persistent_keepalive = 25 },
    )
