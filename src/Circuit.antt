-- ===== src/Circuit.antt =====
-- backend/internal/routinghealth: the circuits, leases, checks and budgets of routing health.
pub mod Row
pub mod Store
pub mod Admission
pub mod Observe
pub mod Budget
pub mod Check
pub mod Invariant
pub mod Transitions
pub mod Failures
pub mod Tables
pub mod Exclusion
pub mod Leases
pub mod Claims
pub mod Sound
pub mod Reach
pub mod Replay
pub mod Allowance
pub mod Release
