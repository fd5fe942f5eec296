-- ===== src/Access.antt =====
-- capmesh/access_control.py: the parts of the authorization decision, each in a child. `Rights` has
-- the role table and the step-up rule, `Refs` the subjects and resources of a request, `Grants` the
-- single grants, `Evaluate` the cascade that joins them. The other children hold the proofs.
mod Rights
mod Refs
mod Grants
mod Evaluate
mod Scopes
mod Records
pub mod Denial
pub mod Strength
pub mod Audit
pub mod Cache
pub mod Isolation
pub mod Samples
mod Tests
unfoldable pub use Rights.*
unfoldable pub use Refs.*
unfoldable pub use Grants.*
unfoldable pub use Evaluate.*
