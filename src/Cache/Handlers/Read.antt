-- ===== src/Cache/Handlers/Read.antt =====
-- `handle_read` of src/cache.cc: reads are served from the oldest on, as many in a cycle as MAX_READ,
-- until one cannot be handled.
pub mod Sparing
pub mod Rounds
pub mod Tracking
pub mod Fate
pub mod Progress
pub mod Order
use arishem.Base.{
  ℕ, zero, suc, ◌%◌, ◌/◌, ◌^◌, Bool, true, false, ◌&&◌, not, Option, none, some, Run, ok, abort,
  ltb, leb, ◌==◌, if◌then◌else◌, inc64, dec32,
}
use arishem.Base.Int.{ltb_ℤ}
use arishem.FastSet
use arishem.Packet.{Packet, num_cpus, load, rfo, prefetch, packet_at}
use arishem.Cache.State.{Block, Cache, bump, is_itlb, is_dtlb, is_stlb, is_l1d, is_l2c, is_llc}
use arishem.Cache.Lookup.{get_set, check_hit}
use arishem.Cache.Mshr.{check_mshr, return_data}
use arishem.Cache.Reads.{rob_number}
use arishem.Cache.World.{Neighbours, World}
use arishem.Cache.World.Action.{
  found_or, is_missing, Action, pure, gets, call, attempt, change, failure, ◌>>=◌, ◌>>◌, when,
}
use arishem.Cache.Steps.{
  look_up, fill_block, take_answer, reads, misses, entry_of, with_entry, retire, processed_with,
  block_in, with_block, count_sim_hit, count_hit, count_miss, count_stall, send_up, send_down,
  lower_full, note_miss, prefetcher_operate, replacement_update,
}
use arishem.Cache.Handlers.Fill.{shifted, is_processed}
use arishem.Cache.Handlers.Writeback.{written_entry}

-- `ROB_SIZE`, `LQ_SIZE`, `SQ_SIZE`
abbrev pub rob_size : ℕ
rob_size = 576

abbrev pub lq_size : ℕ
lq_size = 189

abbrev pub sq_size : ℕ
sq_size = 120

-- A used block; a prefetched one has proved useful once.
unfoldable pub use_block : ℕ → ℕ → Cache → Cache
use_block index way c =
    let b = block_in index way c in
    let useful = not (b.prefetch == 0) in
    record (with_block index way (record b { prefetch = 0; used = 1 }) c) {
      pf_useful = if useful then inc64 c.pf_useful else c.pf_useful;
      pf_useful_epoch = if useful then inc64 c.pf_useful_epoch else c.pf_useful_epoch;
    }

-- The consumers of a merged store.
unfoldable pub store_consumers : Packet → Packet → Packet
store_consumers p e =
    let stored = if p.tlb_access == 0 then e else record e {
      store_merged = 1;
      sq_index_depend_on_me =
          FastSet.join (FastSet.insert e.sq_index_depend_on_me (p.sq_index % 2 ^ 16))
            p.sq_index_depend_on_me sq_size;
    } in
    if p.load_merged == 0 then stored else record stored {
      load_merged = 1;
      lq_index_depend_on_me =
          FastSet.join stored.lq_index_depend_on_me p.lq_index_depend_on_me lq_size;
    }

-- The consumers of a merged instruction fetch.
unfoldable pub fetch_consumers : Packet → Packet → Packet
fetch_consumers p e =
    let inserted = FastSet.insert e.rob_index_depend_on_me (rob_number p.rob_index) in
    record e {
      instr_merged = 1;
      rob_index_depend_on_me =
          if p.instr_merged == 0
          then inserted
          else FastSet.join inserted p.rob_index_depend_on_me rob_size;
    }

-- The consumers of a merged load.
unfoldable pub load_consumers : Packet → Packet → Packet
load_consumers p e =
    let loaded = record e {
      load_merged = 1;
      lq_index_depend_on_me =
          FastSet.join (FastSet.insert e.lq_index_depend_on_me (p.lq_index % 2 ^ 16))
            p.lq_index_depend_on_me lq_size;
    } in
    if p.store_merged == 0 then loaded else record loaded {
      store_merged = 1;
      sq_index_depend_on_me =
          FastSet.join loaded.sq_index_depend_on_me p.sq_index_depend_on_me sq_size;
    }

unfoldable pub consumers : Packet → Packet → Packet
consumers p e =
    if p.type == rfo
    then store_consumers p e
    else if p.instruction == 0
    then load_consumers p e
    else fetch_consumers p e

-- A register whose line is asked for again by a read. The register of a prefetch becomes that of the
-- read; what has returned of it stays.
unfoldable pub read_merged : Packet → Packet → Packet
read_merged p e =
    let e' = consumers p e in
    if e'.type == prefetch
    then record p { returned = e'.returned; event_cycle = e'.event_cycle }
    else if ltb_ℤ p.fill_level e'.fill_level
    then record e' { fill_level = p.fill_level }
    else e'

module _ {E : Type 0} (n : Neighbours E) where
  -- The prefetcher of the level is trained on loads.
  unfoldable pub train_on_read : ℕ → ℕ → ℕ → Packet → Action E (Unit {0})
  train_on_read cpu addr cache_hit p = do
    c ← gets (λ c. c)
    when (p.type == load && c.cache_type == is_l1d)
        (prefetcher_operate n p.full_addr p.ip cache_hit p.type 0 >> pure tt)
    when (p.type == load && c.cache_type == is_l2c)
        (prefetcher_operate n addr p.ip cache_hit p.type 0 >> pure tt)
    when (p.type == load && c.cache_type == is_llc) (do
      change (λ c. record c { cpu = cpu })
      prefetcher_operate n addr p.ip cache_hit p.type 0
      change (λ c. record c { cpu = 0 }))

  -- A hit, until the counts.
  unfoldable pub use_line : ℕ → ℕ → ℕ → ℕ → Action E (Unit {0})
  use_line cpu i index way = do
    change (λ c. with_entry reads i (written_entry c (block_in index way c) (entry_of reads i c)) c)
    p ← gets (entry_of reads i)
    handed ← gets (λ c. is_processed c p)
    when handed (attempt (processed_with p))
    b ← gets (block_in index way)
    train_on_read cpu (shifted b.address) 1 p
    replacement_update n cpu index way b.full_addr p.ip 0 p.type 1

  unfoldable pub read_hit : ℕ → ℕ → ℕ → ℕ → Action E (Unit {0})
  read_hit cpu i index way = do
    use_line cpu i index way
    p ← gets (entry_of reads i)
    change (count_sim_hit cpu p.type)
    send_up n reads i cpu
    change (use_block index way)
    change (count_hit p.type)
    retire n reads i

  -- The page walk of the shared TLB: the translation comes back at once.
  unfoldable pub walk : ℕ → ℕ → Action E (Unit {0})
  walk cpu i = do
    p ← gets (entry_of reads i)
    pa ← call (λ e c. n.va_to_pa e cpu p.instr_id p.full_addr p.address)
    change (with_entry reads i (record p { data_value = pa / 2 ^ 12; event_cycle = n.clock cpu }))
    p' ← gets (entry_of reads i)
    take_answer n p'

  -- A register is taken, and the line is asked for.
  unfoldable pub ask_for_line : ℕ → ℕ → Cache → Action E Bool
  ask_for_line cpu i c = do
    note_miss n reads i
    when n.has_lower (send_down n n.add_rq reads i)
    when (not n.has_lower && c.cache_type == is_stlb) (walk cpu i)
    pure true

  -- A new miss: is it handled?
  unfoldable pub read_miss_new : ℕ → ℕ → Packet → Action E Bool
  read_miss_new cpu i p = do
    c ← gets (λ c. c)
    full ← (if c.cache_type == is_llc then lower_full n 1 p.address else pure false)
    if full then pure false else ask_for_line cpu i c

  -- A miss for which no new register is taken: is it handled?
  unfoldable pub read_miss_old : Packet → Option ℕ → Action E Bool
  read_miss_old p none = do
    full ← gets (λ c. c.mshr.occupancy == c.mshr_size)
    when (not full) failure
    change (count_stall p.type)
    pure false
  read_miss_old p (some k) = do
    e ← gets (entry_of misses k)
    change (with_entry misses k (read_merged p e))
    when (e.type == prefetch) (change (λ c. record c { pf_late = inc64 c.pf_late }))
    change (λ c. record c { mshr_merged = bump c.mshr_merged p.type })
    pure true

  unfoldable pub read_miss : ℕ → ℕ → Action E (Unit {0})
  read_miss cpu i = do
    p ← gets (entry_of reads i)
    found ← gets (λ c. check_mshr c p)
    room ← gets (λ c. ltb c.mshr.occupancy c.mshr_size)
    handled ← (if is_missing found && room then read_miss_new cpu i p else read_miss_old p found)
    when handled (do
      p' ← gets (entry_of reads i)
      train_on_read cpu (shifted p'.address) 0 p'
      change (count_miss p'.type)
      retire n reads i)

  -- The oldest read, which is due.
  unfoldable pub read_oldest : ℕ → ℕ → Action E (Unit {0})
  read_oldest cpu i = do
    p ← gets (entry_of reads i)
    index ← gets (λ c. get_set c p.address)
    way ← look_up n p
    found_or way (read_hit cpu i index) (read_miss cpu i)

  -- Is the oldest read due?
  unfoldable pub read_due : Cache → Bool
  read_due c =
      let p = packet_at c.rq.entry c.rq.head in
      not (p.cpu == num_cpus) && leb p.event_cycle (n.clock p.cpu) && ltb 0 c.rq.occupancy

  -- The loop of `handle_read`.
  unfoldable pub read_rounds : ℕ → Action E (Unit {0})
  read_rounds zero = pure tt
  read_rounds (suc left) = do
    c ← gets (λ c. c)
    when (read_due c) (do
      read_oldest (packet_at c.rq.entry c.rq.head).cpu c.rq.head
      available ← gets (λ c. c.reads_available_this_cycle)
      when (not (available == 0)) (read_rounds left))

  unfoldable pub handle_read : Action E (Unit {0})
  handle_read = do rounds ← gets (λ c. c.max_read); read_rounds rounds
