-- ===== src/Core.antt =====
-- xpdk_core.c, a module for each of its parts.
mod Tests
pub mod Devices
pub mod Messages
pub mod Options
pub mod Poller
pub mod Frame
pub mod Fifo
pub mod Owners
pub mod Answer
pub mod Answered
pub mod Sync
pub mod Call
pub mod Late
pub mod Idle
pub mod Shutdown
pub mod Cleanup
pub mod Life
pub mod Lifecycle
pub mod Initialized
