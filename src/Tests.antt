-- ===== src/Tests.antt =====
-- The theorems at concrete inputs.
pub mod Data
pub mod Circuits
pub mod Rows
pub mod Attempts
pub mod Selections
pub mod Failover
pub mod Requests
pub mod Streams
pub mod Accounts
pub mod Intel
pub mod Events
