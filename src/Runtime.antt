-- ===== src/Runtime.antt =====
-- internal/runtime: the built-in application types.
pub mod Templates
pub mod Detection
