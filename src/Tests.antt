-- ===== src/Tests.antt =====
-- The theorems at concrete inputs.
mod Samples
mod Resources
mod Replicas
mod Changes
mod Syncs
mod Rules
mod Services
mod Lives
mod Whole
mod Starts
mod Installs
mod Tools
mod Removals
mod Orders
