-- ===== src/Task.antt =====
-- Tasks (libcore/src/task).
mod Tests
pub mod Dependency
pub mod Events
