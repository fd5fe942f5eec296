-- ===== src/Sharing.antt =====
-- capmesh/stores.py, the shares of capabilities (`Shares`), a client of `evaluate_access`. `Escalation`,
-- `Expiry` and `Revocation` hold the proofs.
pub mod Shares
pub mod Escalation
pub mod Expiry
pub mod Revocation
mod Tests
