-- ===== src/Api/Proofs.antt =====
-- What the API server's guards guarantee.
pub mod Arguments
pub mod Bodies
pub mod Chains
pub mod V1
pub mod Writes
pub mod V2
pub mod Refusals
