-- ===== src/Metrics/Disk.antt =====
-- metrics/disk.rs, on Linux. What sysinfo reports of a disk is a record, and what `statvfs` and the
-- files of /proc and /sys hold are arguments.
pub mod Usage
pub mod Partitions
pub mod Counters
pub mod Laws
mod Tests
