-- ===== src/Sampler.antt =====
-- sampler.rs: the periodic refresh, the cached JSON, and the loop around them.
pub mod State
pub mod Cadence
pub mod Cache
pub mod Loop
pub mod Safety
pub mod Stores
pub mod Example
mod Tests
