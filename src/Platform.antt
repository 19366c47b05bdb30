-- ===== src/Platform.antt =====
-- The platform service (pkg/service/platform).
pub mod Env
pub mod K8s
pub mod Openshift
