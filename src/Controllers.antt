-- ===== src/Controllers.antt =====
-- The controllers (controllers/), one module to a kind of resource.
pub mod Common
pub mod Projects
pub mod Groups
pub mod Members
pub mod Accesses
pub mod MergeRequests
pub mod Replication
pub mod Gerrits
pub mod Syncer
