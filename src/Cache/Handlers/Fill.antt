-- ===== src/Cache/Handlers/Fill.antt =====
-- `handle_fill` of src/cache.cc: a miss whose data has come is filled into the block array, and its
-- register is freed.
pub mod Sparing
use arishem.Base.{
  ℕ, ◌*◌, ◌%◌, ◌^◌, Bool, true, false, ◌&&◌, not, Run, ok, abort, ltb, leb, ◌==◌, if◌then◌else◌,
  dec32,
}
use arishem.Packet.{Packet, num_cpus, rfo, prefetch, packet_at}
use arishem.Cache.State.{Block, Cache, is_itlb, is_dtlb, is_l1i, is_l1d, is_l2c, is_llc}
use arishem.Cache.Lookup.{get_set, fill_cache}
use arishem.Cache.Mshr.{update_fill_cycle}
use arishem.Cache.State.{llc_way}
use arishem.Cache.World.{Neighbours, World}
use arishem.Cache.World.Action.{
  found_or, is_missing, Action, pure, gets, attempt, change, failure, ◌>>=◌, ◌>>◌, when,
}
use arishem.Cache.Steps.{
  look_up, fill_block, take_answer, misses, entry_of, with_entry, removed, processed_with, block_in,
  with_block, count_sim_miss, send_up, prefetcher_cache_fill, choose_victim, replacement_update,
  evict, count_latency,
}

-- `address << LOG2_BLOCK_SIZE`
abbrev pub shifted : ℕ → ℕ
shifted address = address * 2 ^ 6 % 2 ^ 64

-- `MSHR.num_returned--; update_fill_cycle();`
unfoldable pub one_less_returned : Cache → Cache
one_less_returned c =
    update_fill_cycle
      (record c { mshr = record (c.mshr) { num_returned = dec32 c.mshr.num_returned } })

-- An ITLB or DTLB entry takes the translation of the filled block.
unfoldable pub translated_entry : Cache → Block → Packet → Packet
translated_entry c b p =
    if c.cache_type == is_itlb
    then record p { instruction_pa = b.data_value }
    else if c.cache_type == is_dtlb
    then record p { data_pa = b.data_value }
    else p

-- Is a filled entry handed to the processor?
unfoldable pub is_processed : Cache → Packet → Bool
is_processed c p =
    if c.cache_type == is_itlb
    then true
    else if c.cache_type == is_dtlb
    then true
    else if c.cache_type == is_l1i
    then true
    else c.cache_type == is_l1d && not (p.type == prefetch)

-- `block[set][way].dirty = 1` of a store that missed in L1D.
unfoldable pub mark_store : ℕ → ℕ → ℕ → Cache → Cache
mark_store index way type c =
    if c.cache_type == is_l1d && type == rfo
    then with_block index way (record (block_in index way c) { dirty = 1 }) c
    else c

module _ {E : Type 0} (n : Neighbours E) where
  -- `MSHR.remove_queue(...); MSHR.num_returned--; update_fill_cycle();`, with the latency.
  unfoldable pub free_register : ℕ → ℕ → Action E (Unit {0})
  free_register cpu i = do
    p ← gets (entry_of misses i)
    change (count_latency n cpu p.cycle_enqueued)
    attempt (removed n.uninit misses i)
    change one_less_returned

  -- The prefetcher of this level learns of the fill; its metadata goes into the register in L2C and
  -- LLC.
  unfoldable pub train_on_fill : ℕ → ℕ → ℕ → ℕ → Action E (Unit {0})
  train_on_fill cpu i index way = do
    c ← gets (λ c. c)
    let p = entry_of misses i c
    let prefetched : ℕ = if p.type == prefetch then 1 else 0
    let evicted = shifted (block_in index way c).address
    when (c.cache_type == is_l1d)
        (prefetcher_cache_fill n p.full_addr index way prefetched evicted p.pf_metadata >> pure tt)
    when (c.cache_type == is_l2c) (do
      metadata ←
          prefetcher_cache_fill n (shifted p.address) index way prefetched evicted p.pf_metadata
      p' ← gets (entry_of misses i)
      change (with_entry misses i (record p' { pf_metadata = metadata })))
    when (c.cache_type == is_llc) (do
      change (λ c. record c { cpu = cpu })
      metadata ←
          prefetcher_cache_fill n (shifted p.address) index way prefetched evicted p.pf_metadata
      p' ← gets (entry_of misses i)
      change (with_entry misses i (record p' { pf_metadata = metadata }))
      change (λ c. record c { cpu = 0 }))

  -- The block is filled by the register.
  unfoldable pub place : ℕ → ℕ → ℕ → ℕ → Action E (Unit {0})
  place cpu i index way = do
    train_on_fill cpu i index way
    b ← gets (block_in index way)
    p ← gets (entry_of misses i)
    replacement_update n cpu index way p.full_addr p.ip b.full_addr p.type 0
    change (count_sim_miss cpu p.type)
    fill_block n index way p
    change (mark_store index way p.type)

  -- The filled line goes up, and the register is freed.
  unfoldable pub hand_over : ℕ → ℕ → ℕ → ℕ → Action E (Unit {0})
  hand_over cpu i index way = do
    send_up n misses i cpu
    change (λ c.
        with_entry misses i (translated_entry c (block_in index way c) (entry_of misses i c)) c)
    handed ← gets (λ c. is_processed c (entry_of misses i c))
    p' ← gets (entry_of misses i)
    when handed (attempt (processed_with p'))
    free_register cpu i

  unfoldable pub fill_way : ℕ → ℕ → ℕ → ℕ → Action E (Unit {0})
  fill_way cpu i index way = do place cpu i index way; hand_over cpu i index way

  -- A bypass of the last level: the data goes up, and nothing is filled.
  unfoldable pub bypass : ℕ → ℕ → ℕ → ℕ → Action E (Unit {0})
  bypass cpu i index way = do
    p ← gets (entry_of misses i)
    replacement_update n cpu index way p.full_addr p.ip 0 p.type 0
    change (count_sim_miss cpu p.type)
    send_up n misses i cpu
    free_register cpu i

  -- The fill of the register `i`, which is due.
  unfoldable pub fill_register : ℕ → ℕ → Action E (Unit {0})
  fill_register cpu i = do
    p ← gets (entry_of misses i)
    index ← gets (λ c. get_set c p.address)
    way ← choose_victim n cpu index p
    last ← gets (λ c. c.cache_type == is_llc)
    if last && way == llc_way then bypass cpu i index way else (do
      do_fill ← evict n cpu index way p.instr_id p.type
      when do_fill (fill_way cpu i index way))

  -- The core of the next fill, or NUM_CPUS if there is none.
  unfoldable pub fill_cpu_of : Cache → ℕ
  fill_cpu_of c =
      if c.mshr.next_fill_index == c.mshr_size
      then num_cpus
      else (packet_at c.mshr.entry c.mshr.next_fill_index).cpu

  unfoldable pub handle_fill : Action E (Unit {0})
  handle_fill = do
    c ← gets (λ c. c)
    let cpu = fill_cpu_of c
    when (not (cpu == num_cpus) && leb c.mshr.next_fill_cycle (n.clock cpu)) (do
      when (leb c.mshr.size c.mshr.next_fill_index) failure
      fill_register cpu c.mshr.next_fill_index)
