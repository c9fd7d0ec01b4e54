-- ===== src/Sys.antt =====
-- kernel/sys: the command line and the loader of programs.
pub mod Cmdline
pub mod Elf
