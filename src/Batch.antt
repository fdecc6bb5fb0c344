-- ===== src/Batch.antt =====
-- xpdk_batch.c: batches of I/O.
mod Tests
pub mod Queues
pub mod View
pub mod Process
pub mod Calls
pub mod Wait
pub mod Timeout
pub mod Lost
pub mod Cleanup
pub mod Refine
pub mod Waiting
pub mod Whole
