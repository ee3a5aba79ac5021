-- ===== src/Executor.antt =====
-- zincio/src/executor.rs and zincio/src/task.rs: the ready queues, the handles of tasks, and how the
-- scheduler goes to sleep while other threads wake its tasks.
pub mod Queues
pub mod Join
pub mod Waiting
mod Tests
