-- ===== src/Tests.antt =====
-- Runs of the modelled code on small inputs: each applies a theorem where its conditions hold.
pub mod Data
pub mod Sets
pub mod Queues
pub mod Lookups
pub mod Requests
pub mod Registers
pub mod Prefetchers
pub mod Bitmaps
pub mod Cycles
pub mod Srrip
