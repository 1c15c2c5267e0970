-- ===== src/Routing.antt =====
-- internal/core/desired.go and internal/routing/compile.go: the desired state of a node, compiled
-- from the graph.
pub mod Types
pub mod Links
pub mod Compile
pub mod MainTable
pub mod Allowed
pub mod Placed
pub mod Peers
pub mod Carried
pub mod Defaults
mod Samples
