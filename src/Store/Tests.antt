-- ===== src/Store/Tests.antt =====
-- The store at concrete databases.
pub mod Sample
mod Covers
mod Cleanup
mod Pass
mod Uninstall
