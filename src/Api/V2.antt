-- ===== src/Api/V2.antt =====
-- The guards of opencode 2.x sessions.
pub mod Routes
pub mod Guard
