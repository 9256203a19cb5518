-- ===== src/Kernel.antt =====
-- kernel/src: the parts of the kernel that keep their own state.
pub mod Frames
pub mod Heap
