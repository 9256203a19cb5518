-- ===== src/Lib.antt =====
-- NexOS: the parts of the operating system that keep its tables, its memory and its disks, and what
-- makes them correct.
--
-- The program. `crates/nexos-abi` numbers the system calls and errors. `crates/nexos-runtime` has the
-- scheduler, its wait queues and the process table, which the kernel drives from its timer and its
-- system calls. `kernel/src/memory.rs` hands out physical frames to the heap and the page tables.
-- `crates/nexos-storage` has the block device trait, a device in memory, the write-back cache that
-- the file systems read and write through, the readers of partition tables and the device of one
-- partition. `crates/nexfs` is the native file system: its structures on disk, the blocks it reads
-- through a device, and the check of who owns them. The runtime also has the loader of executables and
-- the table of mounted file systems; `kernel/src/heap.rs` is the kernel's allocator.
--
-- The files.
--   Abi                crates/nexos-abi/src/lib.rs: `Syscall`, `Error`, `try_from`, `as_syscall_result`
--   Runtime/Scheduler  crates/nexos-runtime/src/scheduler.rs: `Scheduler` and each of its methods
--   Runtime/WaitQueue  the same file: `WaitQueue`, `push`, `pop`
--   Runtime/Process    crates/nexos-runtime/src/process.rs: `ProcessTable` and each of its methods
--   Runtime/Elf        crates/nexos-runtime/src/elf.rs: `ElfImage`, `parse`, `load_into`, `LoadSegments`
--   Runtime/Vfs        crates/nexos-runtime/src/vfs.rs: `Path::normalize`, `Vfs` and each of its methods
--   Kernel/Heap        kernel/src/heap.rs: `KernelHeap`, `allocate`, `deallocate`
--   Kernel/Frames      kernel/src/memory.rs: `FrameAllocator`
--   Storage/Device     crates/nexos-storage/src/lib.rs: `BlockDevice`, `MemoryBlockDevice`, `crc32`
--   Storage/Cache      crates/nexos-storage/src/cache.rs: `CachedBlockDevice`
--   Storage/Partition  crates/nexos-storage/src/partition.rs: `PartitionDevice`, the checks of extents
--   Storage/Partition/Table  the same file: `parse_mbr`, `parse_gpt_header`, `read_partition_table`
--   Nexfs/Layout       crates/nexfs/src/layout.rs: `Inode`, `DirectoryEntry`
--   Nexfs/Superblock   crates/nexfs/src/lib.rs: `Superblock`
--   Nexfs/Blocks       the same file: bitmaps, `read_block`, `read_inode`, `validate_inode_blocks`
--   Nexfs/Format       the same file: `format`
--   Prelude            numbers, lists, bytes and buffers, results, state passing, and their lemmas
-- A method of `&mut self` is a function from the state to its result and the state after it. A method
-- that indexes an array or calls `expect` returns an `Option`, and `none` is the panic. An array of
-- optional entries is a list, whose length stands for the constant `TASKS`, `WAITERS`, `PROCESSES` or
-- `HANDLES`. Helpers under a method's name cut its body at a branch or a loop.
--
-- Numbers. A machine number is a natural number. Where the code can reach the end of its width the
-- model has what the code does there: the checked and saturating operations as tests, `wrapping_add`
-- and the counters of the frame allocator modulo 2 ^ 64. `usize` has 64 bits.
--
-- Loops. Each loop is recursion on the rounds that are left, and starts with the number of rounds that
-- the code runs at most: the slots of the array, the ranges from the current one on, the sectors of the
-- transfer, the entries of the cache. None runs out of fuel.
--
-- Parameters. The cache works over any record `BlockDevice`; its theorems assume of the device the
-- record `Sectors`: a sector has contents, a read of it gives them, a write of it changes no other.
-- `MemoryBlockDevice` is one such device.
-- A device's read that fails is taken to leave the caller's buffer as it was.
-- The boot loader's memory map is a list of entries; that its usable entries ascend without overlap is
-- the hypothesis `Ascending`, from the protocol of the boot loader.
--
-- `decode_entry` takes the test of UTF-8 as a parameter, and the mount table works over any record
-- `FileSystem`. `read_partition_table` works over any `BlockDevice` whose reads keep its size.
--
-- Not modelled: the drivers and the processor set-up (memory-mapped and port I/O, assembly), the
-- monitor and the host tools; and so far the full check and the mounted volume of
-- nexfs, the FAT32 reader, the planning of an installation, the shell, the USB protocol and the
-- dispatch of system calls. The lock and the global instance round the heap are left out.
pub mod Prelude
pub mod Abi
pub mod Kernel
pub mod Runtime
pub mod Storage
pub mod Nexfs
