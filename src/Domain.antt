-- ===== src/Domain.antt =====
-- backend/internal/domain: the settings and the rows that the other components share.
pub mod Settings
pub mod Routing
pub mod Provider
