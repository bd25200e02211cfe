-- ===== src/Hdd.antt =====
-- ps2hdd/src/lib.rs: `PS2HDD`, an open disk, its methods, and the processes that use it.
pub mod Types
pub mod Open
pub mod Partitions
pub mod Mounts
pub mod Process
