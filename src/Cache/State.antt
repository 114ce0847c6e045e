-- ===== src/Cache/State.antt =====
-- The state of a cache: `BLOCK` of inc/block.h, `CACHE` of inc/cache.h with what it inherits from
-- `MEMORY` of inc/memory_class.h, and the calls that it makes on the caches above it.
-- Left out: the pointers to other caches (calls through them are values of `Upcall`), the
-- prefetcher objects, and the statistics that no operation modelled here touches.
use Prim.Native.String.{String}
use arishem.Base.{ℕ, zero, suc, Bool, List, [], get_or, set, replicate, inc64}
use arishem.Base.Int.{ℤ, pos}
use arishem.Packet.{Packet}
use arishem.PacketQueue.{PacketQueue}

pub record Block : Type 0 where
  pub valid : ℕ
  pub prefetch : ℕ
  pub dirty : ℕ
  pub used : ℕ
  pub delta : ℤ
  pub depth : ℤ
  pub signature : ℤ
  pub confidence : ℤ
  pub address : ℕ
  pub full_addr : ℕ
  pub tag : ℕ
  pub data_value : ℕ
  pub cpu : ℕ
  pub instr_id : ℕ
  pub lru : ℕ

-- `BLOCK()`
abbrev pub new_block : Block
new_block = record {
  valid = 0;
  prefetch = 0;
  dirty = 0;
  used = 0;
  delta = pos 0;
  depth = pos 0;
  signature = pos 0;
  confidence = pos 0;
  address = 0;
  full_addr = 0;
  tag = 0;
  data_value = 0;
  cpu = 0;
  instr_id = 0;
  lru = 0;
}

-- A read past the end of a set, which the source does not make, gives a new block.
abbrev pub block_at : List Block → ℕ → Block
block_at blocks way = get_or blocks way new_block

-- The values of `cache_type`.
abbrev pub is_itlb : ℕ
is_itlb = 0

abbrev pub is_dtlb : ℕ
is_dtlb = 1

abbrev pub is_stlb : ℕ
is_stlb = 2

abbrev pub is_l1i : ℕ
is_l1i = 3

abbrev pub is_l1d : ℕ
is_l1d = 4

abbrev pub is_l2c : ℕ
is_l2c = 5

abbrev pub is_llc : ℕ
is_llc = 6

pub record Cache : Type 0 where
  pub cpu : ℕ
  pub name : String
  pub num_set : ℕ
  pub num_way : ℕ
  pub num_line : ℕ
  pub wq_size : ℕ
  pub rq_size : ℕ
  pub pq_size : ℕ
  pub mshr_size : ℕ
  pub latency : ℕ
  pub block : List (List Block)
  pub fill_level : ℤ
  pub cache_type : ℕ
  pub pf_requested : ℕ
  pub pf_dropped : ℕ
  pub pf_issued : ℕ
  pub pf_filled : ℕ
  pub pf_useful : ℕ
  pub pf_useless : ℕ
  pub pf_late : ℕ
  pub wq : PacketQueue
  pub rq : PacketQueue
  pub pq : PacketQueue
  pub mshr : PacketQueue
  pub processed : PacketQueue
  pub page_buffer : List ℕ
  pub pf_filled_epoch : ℕ
  pub access : List ℕ
  pub hit : List ℕ
  pub miss : List ℕ
  pub mshr_merged : List ℕ
  pub stall : List ℕ
  pub sim_access : List (List ℕ)
  pub sim_hit : List (List ℕ)
  pub sim_miss : List (List ℕ)
  pub total_miss_latency : ℕ
  pub max_read : ℕ
  pub reads_available_this_cycle : ℕ
  pub pf_useful_epoch : ℕ

-- `block[set]`
abbrev pub set_at : Cache → ℕ → List Block
set_at c index = get_or c.block index (replicate 0 new_block)

-- The ways of the last level, numbered from 0; its policy answers with this number to bypass the
-- cache.
abbrev pub llc_way : ℕ
llc_way = 12

-- `HIT[type]++` and the like
abbrev pub bump : List ℕ → ℕ → List ℕ
bump counters i = set counters i (inc64 (get_or counters i 0))

-- `sim_hit[cpu][type]++` and the like
abbrev pub bump_of_core : List (List ℕ) → ℕ → ℕ → List (List ℕ)
bump_of_core counters core i = set counters core (bump (get_or counters core []) i)

-- `upper_level_icache[cpu]->return_data(packet)`, or on the data side.
pub data Upcall : Type 0 where
  to_icache : ℕ → Packet → Upcall
  to_dcache : ℕ → Packet → Upcall

-- `if (packet->instruction) upper_level_icache… else upper_level_dcache…`
abbrev pub upcall : Packet → Upcall
upcall packet = elim packet.instruction [
  | zero ↦ to_dcache packet.cpu packet
  | suc n ↦ to_icache packet.cpu packet
]

-- The knobs of src/knobs.cc that a lookup reads.
pub record Knobs : Type 0 where
  pub l1d_perfect : Bool
  pub l2c_perfect : Bool
  pub llc_perfect : Bool
  pub l1d_semi_perfect : Bool
  pub l2c_semi_perfect : Bool
  pub llc_semi_perfect : Bool
  pub semi_perfect_cache_page_buffer_size : ℕ

-- `current_core_cycle`
abbrev pub Clock : Type 0
Clock = ℕ → ℕ
