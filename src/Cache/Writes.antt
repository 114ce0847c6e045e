-- ===== src/Cache/Writes.antt =====
-- `add_wq` of src/cache.cc, and the queries on the queues: `get_occupancy`, `get_size`,
-- `increment_WQ_FULL`, `prefetcher_feedback`.
pub mod Append
use arishem.Base.{
  ℕ, ◌+◌, ◌-◌, ◌%◌, ◌/◌, ◌^◌, Bool, true, false, ◌&&◌, ◌||◌, not, List, [], ◌∷◌, Run, ok, abort,
  ◌>>=◌, ltb, leb, ◌==◌, Option, none, some, if◌then◌else◌, inc64, add64, block_of, page_of, set,
}
use arishem.Base.Int.{ℤ, pos, negsuc, ltb_ℤ, pos_part}
use arishem.FastSet
use arishem.Packet.{Packet, Uninit, new_packet, packet_at, rfo, prefetch}
use arishem.PacketQueue.{PacketQueue, check_queue, append_entry, add_queue}
use arishem.Cache.Requests.{Reply, delayed, forwarded_packet, forwarded_calls}
use arishem.Cache.State.{Cache, Clock, Upcall, upcall, bump, is_itlb, is_dtlb, is_l1i, is_l1d}

unfoldable pub merged_write : Cache → Packet → ℕ → Reply
merged_write c packet index = record {
  cache = record c {
    wq = record (c.wq) { merged = inc64 c.wq.merged; access = inc64 c.wq.access };
  };
  packet = packet;
  result = pos index;
  calls = [];
}

unfoldable pub appended_write : Clock → Cache → Packet → Reply
appended_write clock c packet = record {
  cache = record c {
    wq = record (append_entry c.wq (delayed clock c.latency packet)) {
      to_cache = inc64 c.wq.to_cache;
      access = inc64 c.wq.access;
    };
  };
  packet = packet;
  result = negsuc 0;
  calls = [];
}

-- A writeback that is not merged needs room and an empty place; the callers ask for room first.
unfoldable pub add_wq : Clock → Cache → Packet → Run Reply
add_wq clock c packet = elim (check_queue c.wq packet) [
  | some index ↦ ok (merged_write c packet index)
  | none ↦
      if leb c.wq.size c.wq.occupancy || not ((packet_at c.wq.entry c.wq.tail).address == 0)
      then abort
      else ok (appended_write clock c packet)
]

-- The queue that a number stands for in `get_occupancy` and `get_size`; any other gives 0.
unfoldable pub queue_of_type : Cache → ℕ → Option PacketQueue
queue_of_type c queue_type =
    if queue_type == 0
    then some c.mshr
    else if queue_type == 1
    then some c.rq
    else if queue_type == 2
    then some c.wq
    else if queue_type == 3
    then some c.pq
    else none

unfoldable pub get_occupancy : Cache → ℕ → ℕ → ℕ
get_occupancy c queue_type address = elim (queue_of_type c queue_type) [
  | some q ↦ q.occupancy
  | none ↦ 0
]

unfoldable pub get_size : Cache → ℕ → ℕ → ℕ
get_size c queue_type address = elim (queue_of_type c queue_type) [ some q ↦ q.size | none ↦ 0 ]

unfoldable pub increment_wq_full : Cache → ℕ → Cache
increment_wq_full c address = record c { wq = record (c.wq) { full = inc64 c.wq.full } }

-- The generated, filled, used and late prefetches.
unfoldable pub prefetcher_feedback : Cache → ℕ × ℕ × ℕ × ℕ
prefetcher_feedback c = (c.pf_issued, c.pf_filled, c.pf_useful, c.pf_late)
