-- ===== src/Std.antt =====
-- kernel/std: the kernel's own C library.
pub mod Strings
pub mod Stdio
