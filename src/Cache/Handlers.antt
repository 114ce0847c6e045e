-- ===== src/Cache/Handlers.antt =====
-- The handlers of src/cache.cc, which work through the queues of a cache each cycle, and `operate`.
pub mod Fill
pub mod Writeback
pub mod Read
pub mod Prefetch
pub mod Operate
