-- ===== src/Mem.antt =====
-- kernel/mem: the memory managers.
pub mod Memory
pub mod Heap
pub mod Pmm
