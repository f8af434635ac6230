-- ===== src/Gateway.antt =====
-- The gateway, backend/internal/handler.
pub mod Errors
pub mod Outcome
pub mod Rounds
pub mod Failover
pub mod Returns
pub mod Sends
pub mod Excluded
pub mod Admissions
pub mod Answers
pub mod Limits
pub mod Rates
pub mod Classes
pub mod Slots
pub mod Auth
pub mod Confined
pub mod Hold
pub mod Wait
pub mod Setup
pub mod Request
