-- ===== src/Vectored.antt =====
-- xpdk_vectored.c: vectored I/O over one linear buffer.
pub mod Copy
pub mod Gather
pub mod Calls
pub mod Whole
