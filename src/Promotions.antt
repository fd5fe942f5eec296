-- ===== src/Promotions.antt =====
-- capmesh/promotions.py, the workflow by which a capability moves to a namespace of an organization or
-- of everyone, with capmesh/risk_policy.py: `Gates` has the gates, `Submit` the request, `Review` the
-- checks of an approval, `Writes` and `Approve` the decision. The other children hold the proofs.
pub mod Gates
pub mod Review
pub mod Writes
pub mod Submit
pub mod Approve
pub mod Approved
pub mod Found
pub mod Production
pub mod Follow
pub mod Risk
pub mod Submitted
pub mod Closed
pub mod Samples
mod Tests
