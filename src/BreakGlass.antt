-- ===== src/BreakGlass.antt =====
-- capmesh/break_glass.py, the emergency sessions of administrators: `Sessions` has the table and the
-- operations, `Expiry` how long a granted session is active, `Revoked` what a revocation ends.
pub mod Sessions
pub mod Expiry
pub mod Revoked
mod Tests
