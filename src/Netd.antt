-- ===== src/Netd.antt =====
-- internal/netd: the local daemon that applies a desired state.
pub mod Server
pub mod Uapi
mod Samples
