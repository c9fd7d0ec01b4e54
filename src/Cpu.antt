-- ===== src/Cpu.antt =====
-- kernel/cpu: processes and the scheduler.
pub mod Process
pub mod Scheduler
pub mod Wait
mod Tests
