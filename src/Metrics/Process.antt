-- ===== src/Metrics/Process.antt =====
-- metrics/process.rs: the two process rankings. The children hold the parts.
mod Groups
mod Pss
mod Collect
pub mod Smaps
pub mod Grouping
pub mod Ranking
pub mod Streaming
pub mod Collecting
mod Tests
unfoldable pub use Groups.*
unfoldable pub use Pss.*
unfoldable pub use Collect.*
