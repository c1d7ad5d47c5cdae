-- ===== src/Auth/Proofs.antt =====
-- What the sign-in routes keep, over whole exchanges between a client and the server.
pub mod SignIn
pub mod Refresh
pub mod Admission
pub mod ReturnTo
pub mod Checked
pub mod Provider
pub mod App
