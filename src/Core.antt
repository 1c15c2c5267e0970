-- ===== src/Core.antt =====
-- internal/core: the shared types, the error codes and the two status machines.
pub mod Types
pub mod Records
pub mod Errors
pub mod Rollout
pub mod Update
mod Samples
