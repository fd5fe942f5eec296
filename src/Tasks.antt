-- ===== src/Tasks.antt =====
-- capmesh/task_runner.py, the queue of task envelopes: `Envelope` has the table and the
-- operations, `Process` a call of `process_task` and of `cancel_task`, `Steps` the interleavings of
-- several callers.
pub mod Envelope
pub mod Process
pub mod Steps
pub mod History
pub mod Settled
mod Tests
