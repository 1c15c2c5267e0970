-- ===== src/Lib.antt =====
-- PathWeaver (sd-wan-plus) is a self-hosted SD-WAN. A controller keeps the nodes, a control tree
-- (which node enrolled which) and a graph of WireGuard links between them. From these it compiles
-- one desired state for each node; the agents pull it, and the local daemon of a node applies it.
-- A node reaches another one along the control tree only; links that do not follow the tree carry
-- no overlay traffic.
--
-- The files model the Go code under internal/:
--
--   Base and its children: names of the libraries, Boolean tests, lists, texts and maps, and the
--     functions of Go's packages strings, sort and fmt that the code calls.
--
--   Core: internal/core/types.go (Core.Types, Core.Records), errors.go and state.go. Core.Rollout
--     and Core.Update are the two state machines NextRolloutStatus and NextUpdateStatus.
--
--   Topology: internal/topology/graph.go. Topology.Links has HasDirectLink and LinkToward,
--     Topology.Path ValidatePath, Topology.Tree controlTreePath and ControlNextHop, Topology.Bfs
--     EnabledAdj and NextHop. The children of Tree and Bfs are proofs.
--
--   Routing: internal/core/desired.go (Routing.Types) and internal/routing/compile.go
--     (Routing.Links for one link of a node, Routing.Compile for the loops). MainTable, Allowed,
--     Placed, Peers, Carried and Defaults are proofs. Compile calls ControlNextHop of Topology,
--     and takes what ListLinkEndpoints returns as a function.
--
--   Netutil: internal/netutil/addr.go, which Routing and Storage.Ports call.
--
--   Relay: internal/relay/relay.go. Security: internal/security/crypto.go, with the limiter in
--     Security.Limiter and the rest in Security.Secrets.
--
--   Netd: internal/netd/netd.go (Netd.Server, the requests) and wg_userspace.go (Netd.Uapi, the
--     text that configures one device). It reads the desired state of Routing.Types.
--
--   Storage: internal/storage/nodes.go and links.go, over tables that are lists of rows
--     (Storage.Tables). Links, Ports, Nodes, Depth, Names, Removal and Removed have the
--     operations and their proofs. Storage.Sessions is internal/storage/auth.go with the check of
--     a session in internal/controller/server.go, and Storage.Revisions, Storage.Policies,
--     Storage.Tokens and Storage.Updates are internal/storage/policies.go: generations, policies,
--     enrollment tokens, and the rows of publications and of update jobs.
--
--   Controller: internal/controller. Controller.State is the struct of server.go, its tables and
--     the maps that it keeps in memory. Controller.Policies, Repair, Publish and Updates are
--     policy_handlers.go, with the dashboard in Controller.Nodes; Nodes, Links and Tokens are
--     nodes_handlers.go; Enroll and Commands are bootstrap.go, Commands being the agents' update
--     requests and reports, with the checks of a token in Tokens and the desired states and
--     heartbeats in Publish. Controller.Releases is the cache and the comparison of
--     updates_release.go. Controller.Updates.Run is runUpdateJob as a step relation: the
--     orchestrator's steps from one wait or target to the next, its deadlines, and the reports of
--     agents between them. Policies.Saved and Created, Repair.Shape, Stored, Compiled and Kept,
--     Publish.Published, Nodes.Ports and Removed, Links.Parallel and Requests, Updates.Safety,
--     Ends and Lock, and Enroll.Token and Closed are proofs.
--
--   Agent: internal/agent/agent.go, a tick against Netd.Server and the update protocol with
--     Controller.Updates; Agent.Applied and Agent.Reports are proofs.
--
-- State is passed on explicitly: a Go method that changes its receiver is a function that returns
-- the new one. A Go map is an association list in which the entry that was written last comes
-- first, or a list of its keys. An error is none or a constructor of a result type. Times,
-- identifiers and random bytes are arguments; a handler's call (Controller.State.Call) numbers
-- the new identifiers by the places that ask for one. A handler returns its answer, the status
-- and message of a refusal included, and the state afterwards. Numbers are natural numbers; the
-- conversions to uint32 are written out as remainders, and a request's negative number is not
-- told apart from 0, which the handlers refuse or replace in the same way. The orchestrator of an
-- update runs one job: a second start while it runs, or a restart of the controller within it, is
-- not a step of Controller.Updates.Run; what resumeOrFinalizeUpdates does after a restart is
-- Controller.Updates.Resume.
--
-- Bounds: controlTreePath follows at most 1025 parents, as the code does, and the theorems on it
-- are about forests of at most that many levels. NextHop's queue loop runs on four rounds for
-- each link, since a link puts at most two items on the queue at the start and lets at most two
-- more nodes be seen later. NodeDepth follows at most 1000 parents and AllocateOverlayIPv4 tries
-- 65533 candidates, as in the code. Numbers are printed with at most 20 digits, which all 64-bit
-- numbers fit.
--
-- Parameters: the parsers of Go's package net, base64, the AEAD cipher, the digest of the encoded
-- state, the decryption of a node's key, what the machine does when the daemon applies a state,
-- the network's row, the new keys and their encryption at an enrollment, and what installing a
-- release, on the controller or an agent, returns. The theorem on SecretBox assumes that the
-- cipher and base64 undo themselves.
--
-- Not modelled: the HTTP routing, the encoding of requests and answers, login, the download and
-- the staging of releases in the controller; the updater and the artifacts, which are file I/O;
-- the failures of the database other than those of a foreign key on nodes(id): a link, an
-- address, and the rows of a policy that name a node which is not there are refused as the schema
-- says, and a statement that cannot fail by its own meaning does not fail here; administrators,
-- passwords and signatures; notifications and logging. Mutexes are left out, since each modelled
-- call holds its own throughout; the orchestrator of an update and the agents' reports interleave
-- as the steps of Controller.Updates.Run.
pub mod Base
pub mod Core
pub mod Topology
pub mod Netutil
pub mod Routing
pub mod Relay
pub mod Security
pub mod Netd
pub mod Storage
pub mod Controller
pub mod Agent
