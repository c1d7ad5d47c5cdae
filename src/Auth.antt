-- ===== src/Auth.antt =====
-- Access tokens and the sign-in routes of the API server (api/src/token.ts, origins.ts, protocol.ts,
-- auth.ts).
pub mod AccessToken
pub mod Signed
pub mod Routes
pub mod Origins
pub mod Provider
pub mod Proofs
pub mod Spelled
mod Tests
