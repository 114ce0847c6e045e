-- ===== src/Cache/Handlers/Writeback.antt =====
-- `handle_writeback` of src/cache.cc: the oldest waiting write hits a block, is turned into a miss of
-- the L1 data cache, or is filled.

pub mod Sparing
use arishem.Base.{
  ℕ, zero, suc, Bool, true, false, ◌&&◌, not, Option, none, some, Run, ok, abort, ltb, leb, ◌==◌,
  if◌then◌else◌,
}
use arishem.Base.Int.{ltb_ℤ}
use arishem.Packet.{Packet, num_cpus, prefetch, packet_at}
use arishem.Cache.State.{Block, Cache, bump, is_itlb, is_dtlb, is_stlb, is_l1d, is_l2c, is_llc}
use arishem.Cache.Lookup.{get_set, check_hit, fill_cache}
use arishem.Cache.Mshr.{check_mshr}
use arishem.Cache.World.{Neighbours, World}
use arishem.Cache.World.Action.{
  found_or, is_missing, Action, pure, gets, attempt, change, failure, ◌>>=◌, ◌>>◌, when,
}
use arishem.Cache.Steps.{
  look_up, fill_block, take_answer, writes, misses, entry_of, with_entry, removed, block_in,
  with_block, count_sim_hit, count_sim_miss, count_hit, count_miss, count_stall, send_up, send_down,
  lower_full, note_miss, prefetcher_cache_fill, choose_victim, replacement_update, evict,
}
use arishem.Cache.Handlers.Fill.{shifted}
use arishem.Cache.State.{llc_way}

-- `block[set][way].dirty = 1`
unfoldable pub mark_dirty : ℕ → ℕ → Cache → Cache
mark_dirty index way c = with_block index way (record (block_in index way c) { dirty = 1 }) c

-- What a written TLB entry takes from its block.
unfoldable pub written_entry : Cache → Block → Packet → Packet
written_entry c b p =
    if c.cache_type == is_itlb
    then record p { instruction_pa = b.data_value }
    else if c.cache_type == is_dtlb
    then record p { data_pa = b.data_value }
    else if c.cache_type == is_stlb
    then record p { data_value = b.data_value }
    else p

-- A register whose line is asked for again by a write. A register of a prefetch becomes that of the
-- write; what has returned of it stays.
unfoldable pub write_merged : Packet → Packet → Packet
write_merged p e =
    let lowered =
      if ltb_ℤ p.fill_level e.fill_level then record e { fill_level = p.fill_level } else e in
    if e.type == prefetch
    then record p { returned = e.returned; event_cycle = e.event_cycle }
    else lowered

module _ {E : Type 0} (n : Neighbours E) where
  unfoldable pub write_hit : ℕ → ℕ → ℕ → ℕ → Action E (Unit {0})
  write_hit cpu i index way = do
    p ← gets (entry_of writes i)
    b ← gets (block_in index way)
    replacement_update n cpu index way b.full_addr p.ip 0 p.type 1
    change (count_sim_hit cpu p.type)
    change (mark_dirty index way)
    change
        (λ c. with_entry writes i (written_entry c (block_in index way c) (entry_of writes i c)) c)
    send_up n writes i cpu
    change (count_hit p.type)
    attempt (removed n.uninit writes i)

  -- A new miss: a register is taken and the line is asked for below.
  unfoldable pub write_miss_new : ℕ → Packet → Action E Bool
  write_miss_new i p = do
    last ← gets (λ c. c.cache_type == is_llc)
    full ← (if last then lower_full n 1 p.address else pure false)
    if full then pure false else (do note_miss n writes i; send_down n n.add_rq writes i; pure true)

  -- A miss for which no new register is taken: is it handled?
  unfoldable pub write_miss_old : Packet → Option ℕ → Action E Bool
  write_miss_old p none = do
    full ← gets (λ c. c.mshr.occupancy == c.mshr_size)
    when (not full) failure
    change (count_stall p.type)
    pure false
  write_miss_old p (some k) = do
    change (λ c. with_entry misses k (write_merged p (entry_of misses k c)) c)
    change (λ c. record c { mshr_merged = bump c.mshr_merged p.type })
    pure true

  -- A miss of a store in L1D.
  unfoldable pub store_miss : ℕ → Action E (Unit {0})
  store_miss i = do
    p ← gets (entry_of writes i)
    found ← gets (λ c. check_mshr c p)
    room ← gets (λ c. ltb c.mshr.occupancy c.mshr_size)
    handled ← (if is_missing found && room then write_miss_new i p else write_miss_old p found)
    when handled (change (count_miss p.type) >> attempt (removed n.uninit writes i))

  -- The prefetcher learns of a written block.
  unfoldable pub train_on_write : ℕ → ℕ → ℕ → ℕ → Action E (Unit {0})
  train_on_write cpu i index way = do
    c ← gets (λ c. c)
    let p = entry_of writes i c
    let evicted = shifted (block_in index way c).address
    when (c.cache_type == is_l1d)
        (prefetcher_cache_fill n p.full_addr index way 0 evicted p.pf_metadata >> pure tt)
    when (c.cache_type == is_l2c) (do
      metadata ← prefetcher_cache_fill n (shifted p.address) index way 0 evicted p.pf_metadata
      p' ← gets (entry_of writes i)
      change (with_entry writes i (record p' { pf_metadata = metadata })))
    when (c.cache_type == is_llc) (do
      change (λ c. record c { cpu = cpu })
      metadata ← prefetcher_cache_fill n (shifted p.address) index way 0 evicted p.pf_metadata
      p' ← gets (entry_of writes i)
      change (with_entry writes i (record p' { pf_metadata = metadata }))
      change (λ c. record c { cpu = 0 }))

  -- The block is filled by the write.
  unfoldable pub place_write : ℕ → ℕ → ℕ → ℕ → Action E (Unit {0})
  place_write cpu i index way = do
    train_on_write cpu i index way
    b ← gets (block_in index way)
    p ← gets (entry_of writes i)
    replacement_update n cpu index way p.full_addr p.ip b.full_addr p.type 0
    change (count_sim_miss cpu p.type)
    fill_block n index way p
    change (mark_dirty index way)

  unfoldable pub write_way : ℕ → ℕ → ℕ → ℕ → Action E (Unit {0})
  write_way cpu i index way = do
    place_write cpu i index way
    send_up n writes i cpu
    p ← gets (entry_of writes i)
    change (count_miss p.type)
    attempt (removed n.uninit writes i)

  -- A write that misses in any other cache is filled there.
  unfoldable pub write_fill : ℕ → ℕ → Action E (Unit {0})
  write_fill cpu i = do
    p ← gets (entry_of writes i)
    index ← gets (λ c. get_set c p.address)
    way ← choose_victim n cpu index p
    last ← gets (λ c. c.cache_type == is_llc)
    when (last && way == llc_way) failure
    do_fill ← evict n cpu index way p.instr_id p.type
    when do_fill (write_way cpu i index way)

  -- The oldest write, which is due.
  unfoldable pub write_oldest : ℕ → ℕ → Action E (Unit {0})
  write_oldest cpu i = do
    p ← gets (entry_of writes i)
    index ← gets (λ c. get_set c p.address)
    way ← look_up n p
    first ← gets (λ c. c.cache_type == is_l1d)
    found_or way (write_hit cpu i index) (if first then store_miss i else write_fill cpu i)

  unfoldable pub handle_writeback : Action E (Unit {0})
  handle_writeback = do
    c ← gets (λ c. c)
    let p = packet_at c.wq.entry c.wq.head
    when (not (p.cpu == num_cpus) && leb p.event_cycle (n.clock p.cpu) && ltb 0 c.wq.occupancy)
        (write_oldest p.cpu c.wq.head)
