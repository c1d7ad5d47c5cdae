-- ===== src/Tunnel.antt =====
-- cli/src/tunnel.ts: the frames between the gateway and a user's machine, and what the client
-- does with them.
pub mod Frames
pub mod Streams
pub mod Sockets
pub mod Uploads
pub mod Headers
mod Tests
