-- ===== src/Dashboard.antt =====
-- The accounting of requests, backend/internal/dashboard.
pub mod Money
pub mod Rules
pub mod Cost
pub mod Facts
pub mod Aggregate
pub mod Balance
pub mod Settle
pub mod Reasons
pub mod Sums
pub mod Ledger
pub mod Counted
pub mod Attested
pub mod Queue
pub mod Drained
