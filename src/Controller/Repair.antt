-- ===== src/Controller/Repair.antt =====
-- internal/controller/policy_handlers.go: `repairLinkEndpoints` and `nodePublicAdvertise`.
use sd_wan_plus.Base.{
  ℕ, String, ◌==◌, Bool, true, false, not, ◌&&◌, ◌||◌, Option, none, some, List, [], ◌∷◌,
  if◌then◌else◌, eqb, ltb, str_append, decimal,
}
use sd_wan_plus.Core.Types.{NodeAddress, WireGuardLink, WireGuardLinkEndpoint}
use sd_wan_plus.Netutil.{Ip, is_public_dialable}
use sd_wan_plus.Routing.Links.{listener}
use sd_wan_plus.Storage.Tables.{Db, list_node_addresses}
use sd_wan_plus.Storage.Links.{list_links, list_link_endpoints, update_link_endpoint}
use sd_wan_plus.Storage.Ports.{allocate_wg_port}
pub mod Shape
pub mod Stored
pub mod Compiled
pub mod Kept

-- `initEp`, `listenEp` and `changed`.
pub record Repair : Type 0 where
  pub init : WireGuardLinkEndpoint
  pub listen : WireGuardLinkEndpoint
  pub changed : Bool

-- The last endpoint that initiates, or that does not.
unfoldable pub last_endpoint :
    Bool → Option WireGuardLinkEndpoint → List WireGuardLinkEndpoint → Option WireGuardLinkEndpoint
last_endpoint init found [] = found
last_endpoint init found (e ∷ es) =
    last_endpoint init
      (if (if init then e.is_initiator else not e.is_initiator) then some e else found) es

abbrev pub points_to : Option String → String → Bool
points_to none want = false
points_to (some p) want = p == want

abbrev pub is_some : Option String → Bool
is_some none = false
is_some (some p) = true

unfoldable pub set_init_endpoint : String → Repair → Repair
set_init_endpoint want r =
    if points_to r.init.peer_endpoint want
    then r
    else record r { init = record r.init { peer_endpoint = some want }; changed = true }

unfoldable pub set_init_keepalive : Repair → Repair
set_init_keepalive r =
    if eqb r.init.persistent_keepalive 25
    then r
    else record r { init = record r.init { persistent_keepalive = 25 }; changed = true }

unfoldable pub set_listen_port : ℕ → Repair → Repair
set_listen_port port r =
    if not (eqb r.listen.listen_port port) && ltb 0 port
    then record r { listen = record r.listen { listen_port = port }; changed = true }
    else r

-- The three assignments of the one-way shape, which the code has twice.
unfoldable pub clear_init_port : Repair → Repair
clear_init_port r =
    if eqb r.init.listen_port 0
    then r
    else record r { init = record r.init { listen_port = 0 }; changed = true }

unfoldable pub clear_listen_endpoint : Repair → Repair
clear_listen_endpoint r =
    if is_some r.listen.peer_endpoint
    then record r { listen = record r.listen { peer_endpoint = none }; changed = true }
    else r

unfoldable pub set_listen_keepalive : ℕ → Repair → Repair
set_listen_keepalive k r =
    if eqb r.listen.persistent_keepalive k
    then r
    else record r { listen = record r.listen { persistent_keepalive = k }; changed = true }

unfoldable pub one_way : Repair → Repair
one_way r = set_listen_keepalive 0 (clear_listen_endpoint (clear_init_port r))

-- What every link gets first.
unfoldable pub dial : WireGuardLink → Repair → Repair
dial l r = set_listen_port l.listener_port (set_init_keepalive (set_init_endpoint (listener l) r))

unfoldable pub set_listen_endpoint : String → Repair → Repair
set_listen_endpoint want r =
    if points_to r.listen.peer_endpoint want
    then r
    else record r { listen = record r.listen { peer_endpoint = some want }; changed = true }

-- fmt.Sprintf("%s:%d", initAdv, initEp.ListenPort)
unfoldable pub reverse : String → Repair → String
reverse adv r = str_append adv (str_append ":" (decimal r.init.listen_port))

unfoldable pub dial_back : String → Repair → Repair
dial_back adv r = set_listen_keepalive 25 (set_listen_endpoint (reverse adv r) r)

-- The port that AllocateWGPort returned, if it returned one.
unfoldable pub take_port : Option ℕ → Repair → Repair
take_port none r = r
take_port (some p) r = record r { init = record r.init { listen_port = p }; changed = true }

module _ (split_host_port : String → Option (String × String)) (parse_ip : String → Option Ip) where
  unfoldable pub advertised : List NodeAddress → String
  advertised [] = ""
  advertised (a ∷ rest) =
      let later = advertised rest in
      if a.address_type == "lan"
      then later
      else if is_public_dialable split_host_port parse_ip a.address
      then a.address
      else later

  unfoldable pub node_public_advertise : Db → String → String
  node_public_advertise db node = advertised (list_node_addresses db node)

  -- A link that is bidirectional and can be.
  unfoldable pub both_ways : Db → WireGuardLink → Repair → Bool
  both_ways db l r =
      l.bidirectional
      && not (
          node_public_advertise db r.init.node_id == ""
          || not (is_public_dialable split_host_port parse_ip l.listener_address))

  -- AllocateWGPort is called where the initiator has no port; its error leaves the end as it was.
  unfoldable pub new_port : Db → (now : ℕ) → Repair → Option ℕ
  new_port db now r =
      if eqb r.init.listen_port 0
      then (allocate_wg_port split_host_port parse_ip db now r.init.node_id).0
      else none

  unfoldable pub after_port : Db → (now : ℕ) → Repair → Db
  after_port db now r =
      if eqb r.init.listen_port 0
      then (allocate_wg_port split_host_port parse_ip db now r.init.node_id).1
      else db

  -- The reverse direction.
  unfoldable pub shape_back : Db → (now : ℕ) → Repair → Repair × Db
  shape_back db now r = (
    dial_back (node_public_advertise db r.init.node_id) (take_port (new_port db now r) r),
    after_port db now r,
  )

  unfoldable pub shape : Db → (now : ℕ) → WireGuardLink → Repair → Repair × Db
  shape db now l r =
      if both_ways db l r then shape_back db now (dial l r) else (one_way (dial l r), db)

  -- The statements at the end of the body.
  unfoldable pub store : Repair × Db → Db
  store (r, db) =
      if r.changed then update_link_endpoint (update_link_endpoint db r.init) r.listen else db

  -- The body of the loop.
  unfoldable pub repair_link : Db → (now : ℕ) → WireGuardLink → Db
  repair_link db now l =
      let eps = list_link_endpoints db l.id in
      elim (last_endpoint true none eps) [
        | none ↦ db
        | some i ↦ elim (last_endpoint false none eps) [
          | none ↦ db
          | some r ↦ store (shape db now l (record { init = i; listen = r; changed = false }))
        ]
      ]

  unfoldable pub repair_links : (now : ℕ) → List WireGuardLink → Db → Db
  repair_links now [] db = db
  repair_links now (l ∷ ls) db = repair_links now ls (repair_link db now l)

  unfoldable pub repair_link_endpoints : Db → (now : ℕ) → Db
  repair_link_endpoints db now = repair_links now (list_links db) db
