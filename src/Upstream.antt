-- ===== src/Upstream.antt =====
-- The streams of the upstream, backend/internal/upstream.
pub mod Sse
