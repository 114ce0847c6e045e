-- ===== src/Cache.antt =====
-- One cache of the hierarchy (inc/cache.h, src/cache.cc): its state, its replacement policy, its
-- lookups, its request queues and its miss-status registers, a child module for each.
pub mod State
pub mod World
pub mod Steps
pub mod Handlers
pub mod Lru
pub mod Srrip
pub mod Lookup
pub mod Requests
pub mod Reads
pub mod Writes
pub mod Prefetches
pub mod Mshr
