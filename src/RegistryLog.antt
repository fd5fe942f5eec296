-- ===== src/RegistryLog.antt =====
-- capmesh/registry_log.py, the hash-chained log of the registry: `Entries` has the table and the
-- operations, `Chain` the log that appending builds, `Tamper` what verification can tell from the
-- hash of the last entry, and what it cannot.
pub mod Entries
pub mod Chain
pub mod Tamper
mod Tests
