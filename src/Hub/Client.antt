-- ===== src/Hub/Client.antt =====
-- hub/client.rs. The children hold the parts.
pub mod Clip
pub mod Session
pub mod Supervise
pub mod Backoff
pub mod Frames
pub mod Connection
pub mod Handshake
pub mod Overflow
pub mod Stopping
pub mod Os
mod Tests
