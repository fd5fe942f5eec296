-- ===== src/Namespaces.antt =====
-- capmesh/namespace_owners.py, the transfer of a namespace: `Transfer` has the operation, `Ownership`
-- what it changes.
pub mod Transfer
pub mod Ownership
mod Tests
