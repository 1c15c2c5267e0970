-- ===== src/Storage.antt =====
-- internal/storage: the tables, as lists of rows in the order of their insertion, which is that of
-- `created_at`; and the operations on them. A failure of the database itself is not modelled.
pub mod Tables
pub mod Rows
pub mod Policies
pub mod Tokens
pub mod Updates
pub mod Links
pub mod Ports
pub mod Nodes
pub mod Depth
pub mod Names
pub mod Sessions
pub mod Revisions
pub mod Removal
pub mod Removed
mod Samples
