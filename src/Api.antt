-- ===== src/Api.antt =====
-- The API server, api/src.
pub mod Paths
pub mod Request
pub mod Rules
pub mod Arguments
pub mod V2
pub mod V1
pub mod Guards
pub mod Proofs
mod Tests
