-- ===== src/Handler.antt =====
-- internal/handler
pub mod ErrorAnswer
