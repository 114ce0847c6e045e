-- ===== src/Cache/Prefetches.antt =====
-- `add_pq`, `prefetch_line` and `kpc_prefetch_line` of src/cache.cc.
pub mod Append
pub mod Line
use arishem.Base.{
  ℕ, ◌+◌, ◌-◌, ◌%◌, ◌/◌, ◌^◌, Bool, true, false, ◌&&◌, ◌||◌, not, List, [], ◌∷◌, Run, ok, abort,
  ◌>>=◌, ltb, leb, ◌==◌, Option, none, some, if◌then◌else◌, inc64, add64, block_of, page_of, set,
}
use arishem.Base.Int.{ℤ, pos, negsuc, ltb_ℤ, pos_part}
use arishem.FastSet
use arishem.Packet.{Packet, Uninit, new_packet, packet_at, rfo, prefetch}
use arishem.PacketQueue.{PacketQueue, check_queue, append_entry, add_queue}
use arishem.Cache.Requests.{Reply, delayed, forwarded_packet, forwarded_calls}
use arishem.Cache.State.{Cache, Clock, Upcall, upcall, bump, is_itlb, is_dtlb, is_l1i, is_l1d}

unfoldable pub add_pq_forwarded : Cache → Packet → ℕ → Reply
add_pq_forwarded c packet wq_index = record {
  cache = record c {
    hit = bump c.hit packet.type;
    access = bump c.access packet.type;
    wq = record (c.wq) { forward = inc64 c.wq.forward };
    pq = record (c.pq) { access = inc64 c.pq.access };
  };
  packet = forwarded_packet c packet wq_index;
  result = negsuc 0;
  calls = forwarded_calls c packet wq_index;
}

-- A prefetch of a waiting line only lowers the level that the waiting one fills.
unfoldable pub merged_prefetch : Packet → Packet → Packet
merged_prefetch entry packet =
    if ltb_ℤ packet.fill_level entry.fill_level
    then record entry { fill_level = packet.fill_level }
    else entry

unfoldable pub add_pq_merged : Cache → Packet → ℕ → Reply
add_pq_merged c packet index = record {
  cache = record c {
    pq = record (c.pq) {
      entry = set c.pq.entry index (merged_prefetch (packet_at c.pq.entry index) packet);
      merged = inc64 c.pq.merged;
      access = inc64 c.pq.access;
    };
  };
  packet = packet;
  result = pos index;
  calls = [];
}

unfoldable pub refused_prefetch : Cache → Packet → Reply
refused_prefetch c packet = record {
  cache = record c { pq = record (c.pq) { full = inc64 c.pq.full } };
  packet = packet;
  result = negsuc 1;
  calls = [];
}

unfoldable pub appended_prefetch : Clock → Cache → Packet → Reply
appended_prefetch clock c packet = record {
  cache = record c {
    pq = record (append_entry c.pq (delayed clock c.latency packet)) {
      to_cache = inc64 c.pq.to_cache;
      access = inc64 c.pq.access;
    };
  };
  packet = packet;
  result = negsuc 0;
  calls = [];
}

unfoldable pub add_pq_new : Clock → Cache → Packet → Run Reply
add_pq_new clock c packet =
    if c.pq.occupancy == c.pq_size
    then ok (refused_prefetch c packet)
    else if not ((packet_at c.pq.entry c.pq.tail).address == 0) || packet.address == 0
    then abort
    else ok (appended_prefetch clock c packet)

unfoldable pub add_pq : Clock → Cache → Packet → Run Reply
add_pq clock c packet = elim (check_queue c.wq packet) [
  | some wq_index ↦ ok (add_pq_forwarded c packet wq_index)
  | none ↦ elim (check_queue c.pq packet) [
    | some index ↦ ok (add_pq_merged c packet index)
    | none ↦ add_pq_new clock c packet
  ]
]

-- The packet of a prefetch.
unfoldable pub prefetch_packet : Uninit → Clock → Cache → ℕ → ℕ → ℤ → ℕ → Packet
prefetch_packet u clock c ip pf_addr pf_fill_level prefetch_metadata = record (new_packet u) {
  fill_level = pf_fill_level;
  pf_origin_level = c.fill_level;
  pf_metadata = prefetch_metadata;
  cpu = c.cpu;
  address = block_of pf_addr;
  full_addr = pf_addr;
  ip = ip;
  type = prefetch;
  event_cycle = clock c.cpu;
}

-- `pf_issued++; return 1;` after `add_pq`, whose own result is not looked at
unfoldable pub issued : Run Reply → Run (ℕ × Cache × List Upcall)
issued abort = abort
issued (ok r) = ok (1, record (r.cache) { pf_issued = inc64 r.cache.pf_issued }, r.calls)

-- `prefetch_line`: the number 1 if the prefetch was handed to the queue, 0 if it was dropped.
unfoldable pub prefetch_line :
    Uninit → Clock → Cache → ℕ → ℕ → ℕ → ℤ → ℕ → Run (ℕ × Cache × List Upcall)
prefetch_line u clock c ip base_addr pf_addr pf_fill_level prefetch_metadata =
    let requested = record c { pf_requested = inc64 c.pf_requested } in
    if ltb c.pq.occupancy c.pq.size
    then issued (
        add_pq clock requested
          (prefetch_packet u clock c ip pf_addr pf_fill_level prefetch_metadata))
    else ok (0, record requested { pf_dropped = inc64 c.pf_dropped }, [])

-- `kpc_prefetch_line`: the prefetch stays in the page of `base_addr`, and carries the lookahead
-- state of its prefetcher.
unfoldable pub kpc_prefetch_line :
    Uninit → Clock → Cache → ℕ → ℕ → ℤ → ℤ → ℤ → ℤ → ℤ → ℕ → Run (ℕ × Cache × List Upcall)
kpc_prefetch_line u clock c base_addr pf_addr pf_fill_level delta depth signature confidence
      prefetch_metadata =
    let packet = record (prefetch_packet u clock c 0 pf_addr pf_fill_level prefetch_metadata) {
      delta = delta;
      depth = depth;
      signature = signature;
      confidence = confidence;
    } in
    if ltb c.pq.occupancy c.pq.size && page_of base_addr == page_of pf_addr
    then issued (add_pq clock c packet)
    else ok (0, c, [])
