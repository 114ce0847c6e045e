-- ===== src/Lib.antt =====
-- A model of Arishem, a trace-driven simulator of caches, prefetchers and memory (derived from
-- ChampSim), with proofs of what its memory side does.
--
-- The program. Every cache is an object of the class CACHE (inc/cache.h) with a write, a read and
-- a prefetch queue, miss-status registers, and an array of sets of blocks. Requests are packets
-- (inc/block.h); a cache above puts them into the queues of the one below with `add_rq`, `add_wq`
-- and `add_pq`, and gets its data by `return_data`. Each cycle a cache works through its queues
-- (src/cache.cc): it looks a line up, asks the replacement policy for a victim, fills, and trains
-- its prefetchers, which answer with addresses that go back in by `prefetch_line`.
--
-- The modules.
--   Base: numbers, machine words, lists, and runs that an `assert` can abort.
--   FastSet: inc/set.h (`fastset`), the sets of queue indices that packets carry.
--   Packet, Cache.State: PACKET and BLOCK of inc/block.h, CACHE of inc/cache.h, as records.
--   PacketQueue: PACKET_QUEUE of inc/block.h and src/block.cc. Window, Refine, Find and Tidy relate
--     the circular array to the list of its waiting packets.
--   Cache.Lru: replacement/base_replacement.cc. Rank, Victim and History are about the ranks.
--   Cache.Srrip: replacement/srrip.llc_repl, a policy of the last level. Victim is about the search,
--     Update about a use and the search after it.
--   Cache.Lookup: `get_set` to `invalidate_entry` and `search_and_add` of src/cache.cc, with `lg2`
--     of src/main.cc.
--   Cache.Requests, Cache.Reads, Cache.Writes, Cache.Prefetches: `add_rq`, `add_wq`, `add_pq`,
--     `prefetch_line` and `kpc_prefetch_line` of src/cache.cc. The calls that they make on the
--     caches above are returned as a list of `Upcall`.
--   Cache.Mshr: `check_mshr`, `add_mshr`, `update_fill_cycle` and `return_data` of src/cache.cc.
--   Cache.World: what stands around a cache (`Neighbours`: the calls of the caches above and below, of
--     the prefetchers, of the policy of the last level and of the page table) and actions on both;
--     Keeps has the rules by which the proofs follow an action.
--   Cache.Steps, Cache.Handlers: `handle_fill`, `handle_writeback`, `handle_read`, `handle_prefetch`
--     and `operate` of src/cache.cc, and the steps that they share. Modules named Sparing are about
--     what leaves the read queue alone, those named Tracking about the registers; Read.Order,
--     Read.Fate, Read.Progress and Operate.Order have the theorems.
--   Prefetcher: prefetcher/streamer.cc, prefetcher/stride.cc and prefetcher/bop.cc; Tracking has
--     the tables that the first two keep in a `deque`.
--   Bitmap: inc/bitmap.h and src/bitmap.cc.
--   Tests: the theorems applied to small inputs.
--
-- Conventions. State is a record that an operation takes and returns; a failing `assert` is the
-- run `abort`, and a theorem on "every run that ends" is about the runs without such a failure.
-- Machine words are natural numbers with their wrap-around written out, and an `int` is an
-- integer. The index -1 of a search is `none`. Knobs and the cycle of each core are arguments.
-- Debug output (`DP`) and printing are left out. SANITY_CHECK is defined, as in the build.
--
-- Bounds. Loops over arrays are recursions on the number of places left. The binary search of
-- `fastset` and the divisions of `lg2` run on fuel: an interval shrinks and a number halves in each
-- round, so that the number of values, and the number itself, are enough. The search of SRRIP runs
-- on `max_rrpv + 1` rounds: each round without a victim ages every value by one.
--
-- Not modelled: the bodies of what `Neighbours` names (`handle_prefetch_feedback` computes with
-- floating point), the processor core (src/ooo_cpu.cc), the memory controller
-- (src/dram_controller.cc), the learning prefetchers (floating point) and the other prefetchers,
-- the other replacement policies of the last-level cache, branch prediction, and the reading of traces.
pub mod Base
pub mod FastSet
pub mod Packet
pub mod PacketQueue
pub mod Cache
pub mod Prefetcher
pub mod Bitmap
pub mod Tests
