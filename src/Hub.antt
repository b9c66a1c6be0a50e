-- ===== src/Hub.antt =====
-- hub/: the client that pushes to a hub.
pub mod Flatten
pub mod Protocol
pub mod Client
