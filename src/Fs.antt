-- ===== src/Fs.antt =====
-- kernel/fs: files.
pub mod Fd
pub mod Vfs
pub mod Fat
pub mod Devfs
