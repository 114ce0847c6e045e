-- ===== src/Cache/Steps.antt =====
-- The steps that the handlers of src/cache.cc share: the entries of the four queues, the calls of
-- the upper and lower levels, of the prefetchers and of the replacement policies.
pub mod Spared
pub mod Sparing
pub mod Tracked
pub mod Tracking
use arishem.Base.{
  ℕ, zero, suc, ◌+◌, ◌-◌, ◌*◌, ◌%◌, ◌^◌, Bool, true, false, ◌&&◌, ◌||◌, not, List, [], ◌∷◌, Run, ok,
  abort, ltb, leb, ◌==◌, Option, none, some, if◌then◌else◌, set, inc64, add64, dec32,
}
use arishem.Base.Int.{ℤ, pos, negsuc, ltb_ℤ, pattern32, signed32}
use arishem.Packet.{Packet, Uninit, new_packet, packet_at, writeback, prefetch}
use arishem.PacketQueue.{PacketQueue, add_queue, remove_queue}
use arishem.Cache.State.{
  Block, Cache, Clock, Upcall, to_icache, to_dcache, block_at, set_at, bump, bump_of_core, is_llc,
  is_l1d, is_l2c, is_stlb,
}
use arishem.Cache.Lookup.{check_hit, fill_cache}
use arishem.Cache.Lru.{find_victim, update_replacement_state}
use arishem.Cache.Prefetches.{prefetch_line}
use arishem.Cache.Mshr.{return_data, add_mshr}
use arishem.Cache.World.{Prefetch, Advice, Sent, Neighbours, World}
use arishem.Cache.World.Action.{
  found_or, is_missing, Action, pure, gets, call, attempt, change, failure, ◌>>=◌, ◌>>◌, when,
}

-- The four queues of a cache.
pub data Which : Type 0 where
  writes reads prefetches misses : Which

unfoldable pub queue_of : Which → Cache → PacketQueue
queue_of writes c = c.wq
queue_of reads c = c.rq
queue_of prefetches c = c.pq
queue_of misses c = c.mshr

unfoldable pub with_queue : Which → PacketQueue → Cache → Cache
with_queue writes q c = record c { wq = q }
with_queue reads q c = record c { rq = q }
with_queue prefetches q c = record c { pq = q }
with_queue misses q c = record c { mshr = q }

-- `QUEUE.entry[index]`
unfoldable pub entry_of : Which → ℕ → Cache → Packet
unfolding queue_of
entry_of which index c = packet_at (queue_of which c).entry index

-- `QUEUE.entry[index] = p`
unfoldable pub with_entry : Which → ℕ → Packet → Cache → Cache
unfolding queue_of with_queue
with_entry which index p c =
    let q = queue_of which c in with_queue which (record q { entry = set q.entry index p }) c

-- `QUEUE.remove_queue(&QUEUE.entry[index])`
unfoldable pub removed : Uninit → Which → ℕ → Cache → Run (Cache × Unit {0})
unfolding queue_of with_queue
removed u which index c = elim (remove_queue u (queue_of which c) index) [
  | ok q ↦ ok (with_queue which q c, tt)
  | abort ↦ abort
]

-- `reads_available_this_cycle--`
unfoldable pub one_read_less : Cache → Cache
one_read_less c = record c { reads_available_this_cycle = dec32 c.reads_available_this_cycle }

-- `if (PROCESSED.occupancy < PROCESSED.SIZE) PROCESSED.add_queue(&p)`
unfoldable pub processed_with : Packet → Cache → Run (Cache × Unit {0})
processed_with p c =
    if ltb c.processed.occupancy c.processed.size
    then (elim (add_queue c.processed p) [
      | ok q ↦ ok (record c { processed = q }, tt)
      | abort ↦ abort
    ])
    else ok (c, tt)

-- `block[set][way]`
abbrev pub block_in : ℕ → ℕ → Cache → Block
block_in index way c = block_at (set_at c index) way

unfoldable pub with_block : ℕ → ℕ → Block → Cache → Cache
with_block index way b c = record c { block = set c.block index (set (set_at c index) way b) }

-- `sim_hit[cpu][type]++; sim_access[cpu][type]++;`, or with `sim_miss`.
unfoldable pub count_sim_hit : ℕ → ℕ → Cache → Cache
count_sim_hit cpu type c = record c {
  sim_hit = bump_of_core c.sim_hit cpu type;
  sim_access = bump_of_core c.sim_access cpu type;
}

unfoldable pub count_sim_miss : ℕ → ℕ → Cache → Cache
count_sim_miss cpu type c = record c {
  sim_miss = bump_of_core c.sim_miss cpu type;
  sim_access = bump_of_core c.sim_access cpu type;
}

-- `HIT[type]++; ACCESS[type]++;`, or with `MISS`.
unfoldable pub count_hit : ℕ → Cache → Cache
count_hit type c = record c { hit = bump c.hit type; access = bump c.access type }

unfoldable pub count_miss : ℕ → Cache → Cache
count_miss type c = record c { miss = bump c.miss type; access = bump c.access type }

unfoldable pub count_stall : ℕ → Cache → Cache
count_stall type c = record c { stall = bump c.stall type }

module _ {E : Type 0} (n : Neighbours E) where
  -- `upper_level_icache[cpu]->return_data(&p)`, or on the data side.
  unfoldable pub return_up : ℕ → Packet → Action E (Unit {0})
  return_up cpu p = call λ e c.
      elim (n.return_data e (if p.instruction == 0 then to_dcache cpu p else to_icache cpu p)) [
        | ok e' ↦ ok (e', tt)
        | abort ↦ abort
      ]

  -- The calls that an operation of this cache makes on the caches above.
  unfoldable pub return_all : List Upcall → Action E (Unit {0})
  return_all [] = pure tt
  return_all (u ∷ us) =
      call (λ e c. elim (n.return_data e u) [ ok e' ↦ ok (e', tt) | abort ↦ abort ])
      >> return_all us

  -- `if (entry.fill_level < fill_level) ...return_data(&entry)`
  unfoldable pub send_up : Which → ℕ → ℕ → Action E (Unit {0})
  send_up which index cpu = do
    p ← gets (entry_of which index)
    level ← gets (λ c. c.fill_level)
    when (ltb_ℤ p.fill_level level) (return_up cpu p)

  -- The prefetches that a prefetcher asks for.
  unfoldable pub prefetch_all : List Prefetch → Action E (Unit {0})
  prefetch_all [] = pure tt
  prefetch_all (p ∷ ps) = do
    calls ← attempt (λ c.
        elim (prefetch_line n.uninit n.clock c p.ip p.base_addr p.pf_addr p.pf_fill_level
          p.prefetch_metadata) [ ok (_, c', us) ↦ ok (c', us) | abort ↦ abort ])
    return_all calls
    prefetch_all ps

  -- A call of the prefetcher: its prefetches are made, and its metadata is the result.
  unfoldable pub advised : (E → Cache → Run (Advice E)) → Action E ℕ
  advised f = do
    (metadata, ps) ←
        call (λ e c. elim (f e c) [
          | ok a ↦ ok (a.outside, (a.metadata, a.prefetches))
          | abort ↦ abort
        ])
    prefetch_all ps
    pure metadata

  unfoldable pub prefetcher_operate : ℕ → ℕ → ℕ → ℕ → ℕ → Action E ℕ
  prefetcher_operate addr ip cache_hit type metadata =
      advised (λ e c. n.prefetcher_operate e c addr ip cache_hit type metadata)

  unfoldable pub prefetcher_cache_fill : ℕ → ℕ → ℕ → ℕ → ℕ → ℕ → Action E ℕ
  prefetcher_cache_fill addr index way prefetched evicted_addr metadata =
      advised (λ e c. n.prefetcher_cache_fill e c addr index way prefetched evicted_addr metadata)

  unfoldable pub prefetcher_prefetch_hit : ℕ → ℕ → ℕ → Action E ℕ
  prefetcher_prefetch_hit addr ip metadata =
      advised (λ e c. n.prefetcher_prefetch_hit e c addr ip metadata)

  -- `QUEUE.remove_queue(&QUEUE.entry[index]); reads_available_this_cycle--;`
  unfoldable pub retire : Which → ℕ → Action E (Unit {0})
  retire which index = attempt (removed n.uninit which index) >> change one_read_less

  -- `check_hit(&p)`
  unfoldable pub look_up : Packet → Action E (Option ℕ)
  look_up p =
      attempt λ c. elim (check_hit n.knobs c p) [ ok (way, c') ↦ ok (c', way) | abort ↦ abort ]

  -- `fill_cache(set, way, &p)`
  unfoldable pub fill_block : ℕ → ℕ → Packet → Action E (Unit {0})
  fill_block index way p =
      attempt λ c. elim (fill_cache c index way p) [ ok c' ↦ ok (c', tt) | abort ↦ abort ]

  -- `return_data(&p)` of this cache.
  unfoldable pub take_answer : Packet → Action E (Unit {0})
  take_answer p =
      attempt λ c. elim (return_data n.clock c p) [ ok c' ↦ ok (c', tt) | abort ↦ abort ]

  -- The packets that the lower level returns within a call.
  unfoldable pub take_answers : List Packet → Action E (Unit {0})
  take_answers [] = pure tt
  take_answers (p ∷ ps) = do take_answer p; take_answers ps

  -- `lower_level->add_rq(&QUEUE.entry[index])` and the like: the call may change the entry.
  unfoldable pub send_down : (E → Packet → Run (Sent E)) → Which → ℕ → Action E (Unit {0})
  send_down f which index = do
    p ← gets (entry_of which index)
    (p', answers) ←
        call (λ e c. elim (f e p) [ ok s ↦ ok (s.outside, (s.packet, s.answers)) | abort ↦ abort ])
    change (with_entry which index p')
    take_answers answers

  -- `lower_level->get_occupancy(type, address) == lower_level->get_size(type, address)`
  unfoldable pub lower_full : ℕ → ℕ → Action E Bool
  lower_full queue_type address =
      call (λ e c. ok (e, n.get_occupancy e queue_type address == n.get_size e queue_type address))

  -- `add_mshr(&QUEUE.entry[index])`, which stamps the entry.
  unfoldable pub note_miss : Which → ℕ → Action E (Unit {0})
  note_miss which index = do
    p ← gets (entry_of which index)
    p' ← attempt (λ c. let (c', stamped) = add_mshr n.clock c p in ok (c', stamped))
    change (with_entry which index p')

  -- `find_victim`, or that of the last level's policy.
  unfoldable pub choose_victim : ℕ → ℕ → Packet → Action E ℕ
  choose_victim cpu index p = do
    last ← gets (λ c. c.cache_type == is_llc)
    if last
        then call (λ e c. n.llc_find_victim e c cpu index p)
        else attempt (λ c. elim (find_victim c index) [ ok way ↦ ok (c, way) | abort ↦ abort ])

  -- `update_replacement_state(cpu, set, way, full_addr, ip, victim_addr, type, hit)`, or that of the
  -- last level's policy.
  unfoldable pub replacement_update : ℕ → ℕ → ℕ → ℕ → ℕ → ℕ → ℕ → ℕ → Action E (Unit {0})
  replacement_update cpu index way full_addr ip victim_addr type hit = do
    last ← gets (λ c. c.cache_type == is_llc)
    if last
        then call (λ e c.
          elim (n.llc_update_replacement_state e cpu index way full_addr ip victim_addr type hit) [
            | ok e' ↦ ok (e', tt)
            | abort ↦ abort
          ])
        else change (λ c. update_replacement_state c index way type hit)

  -- The packet of a dirty victim that goes to the lower level.
  unfoldable pub writeback_packet : Cache → ℕ → ℕ → Block → Packet
  writeback_packet c cpu instr_id b = record (new_packet n.uninit) {
    fill_level = signed32 (pattern32 c.fill_level * 2 % 2 ^ 32);
    cpu = cpu;
    address = b.address;
    full_addr = b.full_addr;
    data_value = b.data_value;
    instr_id = instr_id;
    ip = 0;
    type = writeback;
    event_cycle = n.clock cpu;
  }

  -- `lower_level->add_wq(&writeback_packet)`
  unfoldable pub write_back : Packet → Action E (Unit {0})
  write_back p = do
    answers ← call (λ e c. elim (n.add_wq e p) [ ok s ↦ ok (s.outside, s.answers) | abort ↦ abort ])
    take_answers answers

  -- A dirty victim with a lower level: it is written back if there is room.
  unfoldable pub write_back_or_stall : ℕ → ℕ → ℕ → Block → Action E Bool
  write_back_or_stall cpu instr_id type b = do
    full ← lower_full 2 b.address
    if full
        then (do
          call (λ e c. ok (n.increment_wq_full e b.address, tt))
          change (count_stall type)
          pure false)
        else (do p ← gets (λ c. writeback_packet c cpu instr_id b); write_back p; pure true)

  -- A dirty victim without a lower level: only the shared TLB drops it.
  unfoldable pub drop_dirty : Action E Bool
  drop_dirty = do shared ← gets (λ c. c.cache_type == is_stlb); when (not shared) failure; pure true

  -- The victim: may it be replaced (`do_fill`)? A dirty one is written back if the lower level has
  -- room.
  unfoldable pub evict : ℕ → ℕ → ℕ → ℕ → ℕ → Action E Bool
  evict cpu index way instr_id type = do
    b ← gets (block_in index way)
    if b.dirty == 0
        then pure true
        else (if n.has_lower then write_back_or_stall cpu instr_id type b else drop_dirty)

  -- `if (warmup_complete[cpu]) total_miss_latency += current_core_cycle[cpu] - cycle_enqueued`
  unfoldable pub count_latency : ℕ → ℕ → Cache → Cache
  count_latency cpu cycle_enqueued c =
      if n.warmup_complete cpu
      then record c {
        total_miss_latency =
            add64 c.total_miss_latency ((n.clock cpu + 2 ^ 64 - cycle_enqueued) % 2 ^ 64);
      }
      else c
