-- ===== src/Ops.antt =====
-- The operations service, backend/internal/ops.
pub mod Quarantine
pub mod Cases
pub mod Sentence
pub mod Backoffs
pub mod Returns
