-- ===== src/Prefetcher.antt =====
-- The prefetchers of prefetcher/: each is trained on the demand accesses of its cache and returns
-- the addresses to prefetch (`pref_addr`).
pub mod Tracking
pub mod Streamer
pub mod Stride
pub mod Bop
