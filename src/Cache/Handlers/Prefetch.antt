-- ===== src/Cache/Handlers/Prefetch.antt =====
-- `handle_prefetch` of src/cache.cc: prefetches are served from the oldest on, as many in a cycle as
-- MAX_READ, until one cannot be handled or the reads have used up the ports.

pub mod Sparing
pub mod Ports
use arishem.Base.{
  ℕ, zero, suc, ◌*◌, Bool, true, false, ◌&&◌, ◌||◌, not, Option, none, some, Run, ok, abort, ltb,
  leb, ◌==◌, if◌then◌else◌,
}
use arishem.Base.Int.{ltb_ℤ}
use arishem.Packet.{Packet, num_cpus, prefetch, packet_at}
use arishem.Cache.State.{Block, Cache, bump, is_l1d, is_l2c, is_llc}
use arishem.Cache.Lookup.{get_set, check_hit}
use arishem.Cache.Mshr.{check_mshr}
use arishem.Cache.World.{Neighbours, World}
use arishem.Cache.World.Action.{
  found_or, is_missing, Action, pure, gets, call, attempt, change, failure, ◌>>=◌, ◌>>◌, when,
}
use arishem.Cache.Steps.{
  look_up, fill_block, take_answer, prefetches, misses, entry_of, with_entry, retire, block_in,
  count_sim_hit, count_hit, count_miss, count_stall, send_up, send_down, lower_full, note_miss,
  prefetcher_operate, prefetcher_prefetch_hit, replacement_update,
}
use arishem.Cache.Handlers.Fill.{shifted}

-- The register of a line that a prefetch asks for: only its fill level may change.
unfoldable pub prefetch_merged : Packet → Packet → Packet
prefetch_merged p e =
    if ltb_ℤ p.fill_level e.fill_level then record e { fill_level = p.fill_level } else e

-- `PQ.entry[index].pf_metadata = metadata`
unfoldable pub with_metadata : ℕ → ℕ → Cache → Cache
with_metadata i metadata c =
    with_entry prefetches i (record (entry_of prefetches i c) { pf_metadata = metadata }) c

module _ {E : Type 0} (n : Neighbours E) where
  -- The prefetcher of the level is run on a prefetch from a higher level.
  unfoldable pub train_on_prefetch : ℕ → ℕ → ℕ → ℕ → Action E (Unit {0})
  train_on_prefetch cpu i addr cache_hit = do
    c ← gets (λ c. c)
    p ← gets (entry_of prefetches i)
    higher ← gets (λ c. ltb_ℤ p.pf_origin_level c.fill_level)
    when (higher && c.cache_type == is_l1d)
        (prefetcher_operate n p.full_addr p.ip cache_hit prefetch 0 >> pure tt)
    when (higher && c.cache_type == is_l2c) (do
      metadata ← prefetcher_operate n addr p.ip cache_hit prefetch p.pf_metadata
      change (with_metadata i metadata))
    when (higher && c.cache_type == is_llc) (do
      change (λ c. record c { cpu = cpu })
      metadata ← prefetcher_operate n addr p.ip cache_hit prefetch p.pf_metadata
      change (with_metadata i metadata)
      change (λ c. record c { cpu = 0 }))

  -- A hit, as the policy, the counts and the prefetcher learn of it.
  unfoldable pub learn_of_hit : ℕ → ℕ → ℕ → ℕ → Action E (Unit {0})
  learn_of_hit cpu i index way = do
    p ← gets (entry_of prefetches i)
    b ← gets (block_in index way)
    replacement_update n cpu index way b.full_addr p.ip 0 p.type 1
    change (count_sim_hit cpu p.type)
    c ← gets (λ c. c)
    when (c.cache_type == is_l1d || c.cache_type == is_l2c || c.cache_type == is_llc)
        (prefetcher_prefetch_hit n (shifted b.address) p.ip p.pf_metadata >> pure tt)
    b' ← gets (block_in index way)
    train_on_prefetch cpu i (shifted b'.address) 1

  unfoldable pub prefetch_hit : ℕ → ℕ → ℕ → ℕ → Action E (Unit {0})
  prefetch_hit cpu i index way = do
    learn_of_hit cpu i index way
    send_up n prefetches i cpu
    p' ← gets (entry_of prefetches i)
    change (count_hit p'.type)
    retire n prefetches i

  -- A new miss: is it handled? A prefetch that is filled at a lower level takes no register.
  unfoldable pub prefetch_miss_new : ℕ → ℕ → Packet → Action E Bool
  prefetch_miss_new cpu i p = do
    c ← gets (λ c. c)
    let last = c.cache_type == is_llc
    full ← (if n.has_lower then lower_full n (if last then 1 else 3) p.address else pure false)
    when (n.has_lower && not full) (do
      train_on_prefetch cpu i (shifted p.address) 0
      p' ← gets (entry_of prefetches i)
      when (not (ltb_ℤ c.fill_level p'.fill_level)) (note_miss n prefetches i)
      send_down n (if last then n.add_rq else n.add_pq) prefetches i)
    pure (not full)

  -- A miss for which no new register is taken: is it handled?
  unfoldable pub prefetch_miss_old : Packet → Option ℕ → Action E Bool
  prefetch_miss_old p none = do
    full ← gets (λ c. c.mshr.occupancy == c.mshr_size)
    when (not full) failure
    change (count_stall p.type)
    pure false
  prefetch_miss_old p (some k) = do
    e ← gets (entry_of misses k)
    change (with_entry misses k (prefetch_merged p e))
    change (λ c. record c { mshr_merged = bump c.mshr_merged p.type })
    pure true

  unfoldable pub prefetch_miss : ℕ → ℕ → Action E (Unit {0})
  prefetch_miss cpu i = do
    p ← gets (entry_of prefetches i)
    found ← gets (λ c. check_mshr c p)
    room ← gets (λ c. ltb c.mshr.occupancy c.mshr_size)
    handled ←
        (if is_missing found && room then prefetch_miss_new cpu i p else prefetch_miss_old p found)
    when handled
        (do p' ← gets (entry_of prefetches i); change (count_miss p'.type); retire n prefetches i)

  -- The oldest prefetch, which is due.
  unfoldable pub prefetch_oldest : ℕ → ℕ → Action E (Unit {0})
  prefetch_oldest cpu i = do
    p ← gets (entry_of prefetches i)
    index ← gets (λ c. get_set c p.address)
    way ← look_up n p
    found_or way (prefetch_hit cpu i index) (prefetch_miss cpu i)

  -- Is the oldest prefetch due?
  unfoldable pub prefetch_due : Cache → Bool
  prefetch_due c =
      let p = packet_at c.pq.entry c.pq.head in
      not (p.cpu == num_cpus) && leb p.event_cycle (n.clock p.cpu) && ltb 0 c.pq.occupancy

  -- The loop of `handle_prefetch`.
  unfoldable pub prefetch_rounds : ℕ → Action E (Unit {0})
  prefetch_rounds zero = pure tt
  prefetch_rounds (suc left) = do
    c ← gets (λ c. c)
    when (prefetch_due c) (do
      prefetch_oldest (packet_at c.pq.entry c.pq.head).cpu c.pq.head
      available ← gets (λ c. c.reads_available_this_cycle)
      when (not (available == 0)) (prefetch_rounds left))

  unfoldable pub handle_prefetch : Action E (Unit {0})
  handle_prefetch = do rounds ← gets (λ c. c.max_read); prefetch_rounds rounds
