-- ===== src/Server.antt =====
-- server/: the worker tokens and the WebSocket sessions.
pub mod Worker
pub mod Ws
pub mod Probes
pub mod Http
pub mod Router
