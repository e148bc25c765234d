-- ===== src/Store.antt =====
-- internal/store: what the tables keep.
pub mod Stamp
pub mod Cache
pub mod Leases
pub mod Records
pub mod Discovery
pub mod Exact
pub mod Resources
pub mod Connections
pub mod Runs
