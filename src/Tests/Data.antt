-- ===== src/Tests/Data.antt =====
-- A cache of two sets of two ways, with queues of two packets and two registers.
use arishem.Base.{ℕ, ◌*◌, List, [], ◌∷◌, replicate, false}
use arishem.Base.Int.{pos}
use arishem.Packet.{Packet, Uninit, new_packet}
use arishem.PacketQueue.{PacketQueue, new_queue}
use arishem.Cache.State.{Block, new_block, Cache, Knobs, Clock, is_l2c}

abbrev pub uninit : Uninit
uninit = record { pf_origin_level = pos 0; pf_metadata = 0; data_pa = 0 }

-- A load of a line by core 0.
abbrev pub load_of : ℕ → Packet
load_of line = record (new_packet uninit) {
  cpu = 0;
  address = line;
  full_addr = line * 64;
  data_value = 7;
  fill_level = pos 2;
  event_cycle = 5;
}

abbrev pub two_ways : List Block
two_ways = new_block ∷ record new_block { lru = 1 } ∷ []

abbrev pub cache_of : PacketQueue → PacketQueue → PacketQueue → PacketQueue → Cache
cache_of wq rq pq mshr = record {
  cpu = 0;
  name = "L2C";
  num_set = 2;
  num_way = 2;
  num_line = 4;
  wq_size = 2;
  rq_size = 2;
  pq_size = 2;
  mshr_size = 2;
  latency = 10;
  block = two_ways ∷ two_ways ∷ [];
  fill_level = pos 2;
  cache_type = is_l2c;
  pf_requested = 0;
  pf_dropped = 0;
  pf_issued = 0;
  pf_filled = 0;
  pf_useful = 0;
  pf_useless = 0;
  pf_late = 0;
  wq = wq;
  rq = rq;
  pq = pq;
  mshr = mshr;
  processed = new_queue uninit "L2C_PROCESSED" 2;
  page_buffer = [];
  pf_filled_epoch = 0;
  access = replicate 4 0;
  hit = replicate 4 0;
  miss = replicate 4 0;
  mshr_merged = replicate 4 0;
  stall = replicate 4 0;
  sim_access = replicate 4 0 ∷ [];
  sim_hit = replicate 4 0 ∷ [];
  sim_miss = replicate 4 0 ∷ [];
  total_miss_latency = 0;
  max_read = 2;
  reads_available_this_cycle = 2;
  pf_useful_epoch = 0;
}

abbrev pub l2c : Cache
l2c =
    cache_of (new_queue uninit "L2C_WQ" 2) (new_queue uninit "L2C_RQ" 2)
      (new_queue uninit "L2C_PQ" 2) (new_queue uninit "L2C_MSHR" 2)

abbrev pub clock : Clock
clock core = 100

abbrev pub real_cache : Knobs
real_cache = record {
  l1d_perfect = false;
  l2c_perfect = false;
  llc_perfect = false;
  l1d_semi_perfect = false;
  l2c_semi_perfect = false;
  llc_semi_perfect = false;
  semi_perfect_cache_page_buffer_size = 4;
}
