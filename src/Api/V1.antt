-- ===== src/Api/V1.antt =====
-- The guards of opencode 1.x sessions.
pub mod Routes
pub mod Never
pub mod Toggles
pub mod Secrets
