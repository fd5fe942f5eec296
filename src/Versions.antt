-- ===== src/Versions.antt =====
-- capmesh/semver_policy.py: versions and their comparison (`Semver`), and the
-- choice between several (`Conflict`). `Signs` has the three-way results
-- with their laws; `Order`, `Maximum`, `Candidates` and `Winner` the proofs.
pub mod Signs
pub mod Semver
pub mod Order
pub mod Conflict
pub mod Maximum
pub mod Candidates
pub mod Winner
mod Tests
