-- ===== src/Controller/Enroll/Samples.antt =====
-- The theorems on enrollment, for a node that enrolls under R.
use sd_wan_plus.Base.{ℕ, String, ◌≡◌, ◌⊎◌, false, Option, none, some, List, [], ◌∷◌, arith}
use sd_wan_plus.Topology.Samples.{node}
use sd_wan_plus.Controller.Samples.{no_port, no_ip, digest, plain, call, server}
use sd_wan_plus.Netutil.{Ip}
use sd_wan_plus.Storage.Tables.{Db}
use sd_wan_plus.Storage.Tokens.{get_enrollment_token}
use sd_wan_plus.Controller.State.{Reply, Server, Accepted}
use sd_wan_plus.Controller.Enroll.{EnrollBody, handle_enroll, handle_commit_enroll, enrolled_pool}
use sd_wan_plus.Controller.Enroll.Closed.{
  Given, TokenRequest, enroll, create, revoke, serve_all, enrolled_by, handle_commit_enroll-closes,
}
use sd_wan_plus.Controller.Enroll.Token.{
  Usable, GoodPool, handle_enroll-Usable, enrolled_pool-GoodPool,
}

abbrev no_cidr : String → Option (Ip × ℕ)
no_cidr s = none

abbrev db : Db
db = server.db

abbrev body : EnrollBody
body = record {
  token = "secret";
  node_name = "";
  wg_public_key = "";
  wg_private_key = "";
  identity_public_key = "";
  agent_version = "1";
  protocol_version = 1;
  advertise_address = "";
  address_type = "";
  has_public_ip = false;
  wg_listen_port = some 15000;
  wg_port_range_start = none;
  wg_port_range_end = some 70000;
}

handle_enroll-Usable_example :
    (Usable 50 (get_enrollment_token db "secret")
      ⊎ (¬ Accepted
          (handle_enroll no_port no_ip no_cidr plain none
            (some ("a", "b"))
            (some ("c", "d"))
            digest
            plain
            call
            body
            server).0)
        × ((handle_enroll no_port no_ip no_cidr plain none
              (some ("a", "b"))
              (some ("c", "d"))
              digest
              plain
              call
              body
              server).1
            ≡ server))
    × ((handle_enroll no_port no_ip no_cidr plain none
          (some ("a", "b"))
          (some ("c", "d"))
          digest
          plain
          call
          body
          server).1.db.enrollment_tokens
        ≡ db.enrollment_tokens)
handle_enroll-Usable_example =
    handle_enroll-Usable no_port no_ip no_cidr plain none (some ("a", "b")) (some ("c", "d")) digest
      plain call body server

abbrev given : Given
given = record { network = none; wg_pair = some ("a", "b"); id_pair = some ("c", "d") }

-- Another enrollment with the token, a new token, and a revocation come between.
abbrev between : List TokenRequest
between =
    enroll given call body
    ∷ create given call
        (record { parent_node_id = "R"; suggested_node_name = "E"; expires_minutes = 5 })
        (some "other")
    ∷ revoke "t2"
    ∷ []

abbrev at_last : Server
at_last =
    serve_all no_port no_ip no_cidr plain digest plain
      (handle_commit_enroll 60 "1" "D" "secret" server).1 between

abbrev refused_enroll : Reply String × Server
refused_enroll = enrolled_by no_port no_ip no_cidr plain digest plain given call body at_last

committed : Accepted (handle_commit_enroll 60 "1" "D" "secret" server).0
unfolding handle_commit_enroll get_enrollment_token
committed = tt

handle_commit_enroll-closes_example : (¬ Accepted refused_enroll.0) × (refused_enroll.1 ≡ at_last)
handle_commit_enroll-closes_example =
    handle_commit_enroll-closes no_port no_ip no_cidr plain digest plain 60 "1" "D" server between
      given call body committed

enrolled_pool-GoodPool_example : GoodPool false (enrolled_pool false 14303 (node "R" none) body)
enrolled_pool-GoodPool_example =
    enrolled_pool-GoodPool false 14303 (node "R" none) body (ground arith) (omega arith)
      (omega arith)
