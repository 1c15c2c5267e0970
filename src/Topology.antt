-- ===== src/Topology.antt =====
-- internal/topology/graph.go.
pub mod Links
pub mod Path
pub mod Tree
pub mod Bfs
pub mod Samples
