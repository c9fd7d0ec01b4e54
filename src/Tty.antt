-- ===== src/Tty.antt =====
-- kernel/drivers/tty/tty.c and tty.h: the terminal.
pub mod Buffer
pub mod Device
pub mod Line
pub mod Input
pub mod Read
pub mod Spec
pub mod Refine
pub mod Tests
pub mod Table
