-- ===== src/Client.antt =====
-- The Gerrit client (pkg/client/gerrit): REST requests, and commands over SSH.
pub mod Rest
pub mod Projects
pub mod Groups
pub mod Changes
pub mod Access
pub mod Ssh
pub mod Git
pub mod Shell
