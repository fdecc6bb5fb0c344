-- ===== src/Perf.antt =====
-- xpdk_perf.c: statistics, and the handlers and calls of its messages.
mod Tests
pub mod Stats
pub mod Rates
pub mod Handlers
pub mod Calls
