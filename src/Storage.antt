-- ===== src/Storage.antt =====
-- crates/nexos-storage: block devices, the sector cache and partition tables.
pub mod Device
pub mod Cache
pub mod Partition
