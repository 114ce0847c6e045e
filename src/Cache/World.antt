-- ===== src/Cache/World.antt =====
-- A cache among its neighbours: what the handlers of src/cache.cc call outside the cache, as the
-- operations of a record, and the actions that work on a cache and on what stands around it.
pub mod Action
pub mod Keeps
use arishem.Base.{ℕ, Bool, List, Run}
use arishem.Base.Int.{ℤ}
use arishem.Packet.{Packet, Uninit}
use arishem.Cache.State.{Cache, Clock, Knobs, Upcall}

-- The arguments of a call of `prefetch_line`.
pub record Prefetch : Type 0 where
  pub ip : ℕ
  pub base_addr : ℕ
  pub pf_addr : ℕ
  pub pf_fill_level : ℤ
  pub prefetch_metadata : ℕ

-- What a prefetcher leaves: its state, the metadata that it returns, and the prefetches that it asks
-- the cache for. (It reaches the cache by `prefetch_line` alone, and does not look at the result.)
pub record Advice (E : Type 0) : Type 0 where
  pub outside : E
  pub metadata : ℕ
  pub prefetches : List Prefetch

-- A request to the lower level: the packet as the call leaves it, and the packets that the lower
-- level returns to this cache within the call.
pub record Sent (E : Type 0) : Type 0 where
  pub outside : E
  pub packet : Packet
  pub answers : List Packet

-- `E` is the state of all that is outside: the caches above, the lower level, the prefetchers, the
-- replacement policy of the last level, and the page table. Which prefetchers and which policy
-- these are is settled when the simulator is built.
pub record Neighbours (E : Type 0) : Type 0 where
  pub uninit : Uninit
  pub clock : Clock
  pub knobs : Knobs
  pub warmup_complete : ℕ → Bool
  -- `lower_level != NULL`, and its operations.
  pub has_lower : Bool
  pub get_occupancy : E → ℕ → ℕ → ℕ
  pub get_size : E → ℕ → ℕ → ℕ
  pub increment_wq_full : E → ℕ → E
  pub add_rq : E → Packet → Run (Sent E)
  pub add_wq : E → Packet → Run (Sent E)
  pub add_pq : E → Packet → Run (Sent E)
  -- `upper_level_icache[cpu]->return_data` and `upper_level_dcache[cpu]->return_data`
  pub return_data : E → Upcall → Run E
  -- `operate`, `cache_fill` and `prefetch_hit` of the prefetcher of this level: the arguments stand
  -- in the order of the source.
  pub prefetcher_operate : E → Cache → ℕ → ℕ → ℕ → ℕ → ℕ → Run (Advice E)
  pub prefetcher_cache_fill : E → Cache → ℕ → ℕ → ℕ → ℕ → ℕ → ℕ → Run (Advice E)
  pub prefetcher_prefetch_hit : E → Cache → ℕ → ℕ → ℕ → Run (Advice E)
  -- The policy of the last level: the core, the set, the addresses and the type of the access.
  pub llc_find_victim : E → Cache → ℕ → ℕ → Packet → Run (E × ℕ)
  pub llc_update_replacement_state : E → ℕ → ℕ → ℕ → ℕ → ℕ → ℕ → ℕ → ℕ → Run E
  -- `va_to_pa(cpu, instr_id, va, unique_vpage)`
  pub va_to_pa : E → ℕ → ℕ → ℕ → ℕ → Run (E × ℕ)
  -- `handle_prefetch_feedback`, from the useful and filled prefetches of the epoch to those after it.
  pub handle_prefetch_feedback : E → ℕ → ℕ → E × ℕ × ℕ

pub record World (E : Type 0) : Type 0 where
  pub cache : Cache
  pub outside : E
