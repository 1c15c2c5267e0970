-- ===== src/Controller.antt =====
-- internal/controller: the state of the server, and its handlers as functions from a state and the
-- body of a request to a reply and the state afterwards.
pub mod State
pub mod Policies
pub mod Repair
pub mod Publish
pub mod Nodes
pub mod Links
pub mod Updates
pub mod Commands
pub mod Tokens
pub mod Releases
pub mod Enroll
pub mod Samples
