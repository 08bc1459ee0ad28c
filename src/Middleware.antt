-- ===== src/Middleware.antt =====
-- internal/middleware
pub mod Auth
