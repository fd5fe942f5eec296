-- ===== src/Dependencies.antt =====
-- capmesh/dependency_graph.py: the table of dependencies between capabilities (`Table`) and the order
-- in which they can be deployed (`Kahn`). `Counts`, `Invariant` and `Deployment` hold the proofs.
pub mod Table
pub mod Kahn
pub mod Counts
pub mod Invariant
pub mod Orders
pub mod Deployment
pub mod Acyclic
mod Tests
