-- ===== src/Lifecycle.antt =====
-- capmesh/lifecycle_transitions.py: `Transitions` has the tables of lifecycles and the two
-- operations, `Outcome` what one call does, `Deleted` what a sequence of calls keeps, and `Closed`
-- the effect on `evaluate_access`.
mod Transitions
unfoldable pub use Transitions.*
pub mod Outcome
pub mod Deleted
pub mod Closed
mod Tests
