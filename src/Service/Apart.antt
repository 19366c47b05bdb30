-- ===== src/Service/Apart.antt =====
-- The service leaves the instance alone, but for its annotations (pkg/service/gerrit/gerrit.go): one rule
-- for each method that it calls.
pub mod Platform
pub mod Client
pub mod Access
pub mod Whole
