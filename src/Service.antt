-- ===== src/Service.antt =====
-- `ComponentService` (pkg/service/gerrit): the connections to one Gerrit, its secrets and its port.
pub mod Apart
pub mod Configure
pub mod Expose
pub mod KeyPairs
pub mod Connect
pub mod Secrets
