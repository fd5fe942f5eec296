-- ===== src/CapGuard.antt =====
-- capmesh/cap_guard.py, the runtime policy that decides whether a capability may be indexed as
-- callable: `Policy` has the vocabulary, the configuration and its validation, `Checks` the single
-- controls, `Evaluate` the verdict. Messages, evidence and reason texts are left out.
mod Policy
mod Checks
mod Evaluate
unfoldable pub use Policy.*
unfoldable pub use Checks.*
unfoldable pub use Evaluate.*
pub mod Safety
pub mod Defaults
mod Samples
mod Tests
