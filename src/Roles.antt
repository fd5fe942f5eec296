-- ===== src/Roles.antt =====
-- capmesh/roles_orgs.py, the assignment of roles and the membership of organizations, a client of
-- `evaluate_access`: `Operations` has the assignment and revocation of roles, `Members` the membership
-- of organizations, `Changes` what they need and what they end.
pub mod Operations
pub mod Members
pub mod Changes
mod Tests
