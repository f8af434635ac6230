-- ===== src/Routes.antt =====
-- The route groups, backend/internal/ops/routegroup.go.
pub mod Groups
pub mod Allowed
pub mod Patterns
pub mod Models
