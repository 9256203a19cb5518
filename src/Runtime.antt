-- ===== src/Runtime.antt =====
-- crates/nexos-runtime: scheduling, processes and paths, without hardware.
pub mod Scheduler
pub mod WaitQueue
pub mod Process
pub mod Elf
pub mod Vfs
