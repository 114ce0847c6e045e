-- ===== src/Cache/Lookup.antt =====
-- Where a cache keeps a line and how it finds it: `get_set`, `get_way`, `check_hit`,
-- `invalidate_entry`, `fill_cache` and `search_and_add` of src/cache.cc, `lg2` of src/main.cc.
pub mod Index
pub mod Tags
pub mod Fill
pub mod Invalidate
pub mod Pages
use arishem.Base.{
  ℕ, zero, suc, ◌+◌, ◌-◌, ◌/◌, ◌%◌, ◌^◌, Bool, true, false, ◌&&◌, ◌||◌, not, List, [], ◌∷◌, ◌++◌,
  Run, ok, abort, ltb, leb, ◌==◌, Option, none, some, if◌then◌else◌, length, drop, set, inc64,
  page_of,
}
use arishem.Packet.{Packet, load, prefetch}
use arishem.Cache.State.{
  Block, Cache, Knobs, block_at, set_at, is_itlb, is_dtlb, is_stlb, is_l1d, is_l2c, is_llc,
}
use arishem.Cache.Lru.{find_way}

-- The rounds of the loop of `lg2`, with fuel for as many halvings as there can be.
unfoldable pub lg2_rounds : ℕ → ℕ → ℕ
lg2_rounds zero m = 0
lg2_rounds (suc fuel) m = let rest = lg2_rounds fuel (m / 2) in if m == 0 then 0 else rest + 1

-- `lg2`, whose counter starts at -1. (Of 0 the source gives -1; no cache has 0 sets.)
unfoldable pub lg2 : ℕ → ℕ
lg2 n = lg2_rounds n n - 1

-- `address & ((1 << lg2(NUM_SET)) - 1)`
unfoldable pub get_set : Cache → ℕ → ℕ
get_set c address = address % 2 ^ lg2 c.num_set

abbrev pub holds : ℕ → Block → Bool
holds address b = not (b.valid == 0) && b.tag == address

-- `get_way` returns NUM_WAY when no way holds the address.
unfoldable pub get_way : Cache → ℕ → ℕ → ℕ
get_way c address index = elim (find_way (holds address) (set_at c index) 0 c.num_way) [
  | some way ↦ way
  | none ↦ c.num_way
]

unfoldable pub has_page : ℕ → List ℕ → Bool
has_page page [] = false
has_page page (p ∷ ps) = p == page || has_page page ps

-- The page buffer is a deque; a page that is not in it replaces the oldest when it is full.
unfoldable pub search_and_add : ℕ → List ℕ → ℕ → Bool × List ℕ
search_and_add limit page_buffer page =
    if has_page page page_buffer
    then (true, page_buffer)
    else let kept = if leb limit (length page_buffer) then drop 1 page_buffer else page_buffer in
      (false, kept ++ page ∷ [])

unfoldable pub is_perfect : Knobs → Cache → Bool
is_perfect k c =
    (c.cache_type == is_l1d && k.l1d_perfect)
    || (c.cache_type == is_l2c && k.l2c_perfect)
    || (c.cache_type == is_llc && k.llc_perfect)

unfoldable pub is_semi_perfect : Knobs → Cache → Bool
is_semi_perfect k c =
    (c.cache_type == is_l1d && k.l1d_semi_perfect)
    || (c.cache_type == is_l2c && k.l2c_semi_perfect)
    || (c.cache_type == is_llc && k.llc_semi_perfect)

-- `check_hit`; the result -1 is `none`.
unfoldable pub check_hit : Knobs → Cache → Packet → Run (Option ℕ × Cache)
check_hit k c packet =
    let index = get_set c packet.address in
    let way = find_way (holds packet.address) (set_at c index) 0 c.num_way in
    let (found, pages) =
      search_and_add k.semi_perfect_cache_page_buffer_size c.page_buffer (page_of packet.address) in
    let c' = record c { page_buffer = pages } in
    if ltb c.num_set index
    then abort
    else if is_perfect k c
    then ok (some 0, c)
    else if is_semi_perfect k c && packet.type == load
    then (if found then ok (some 0, c') else ok (way, c'))
    else ok (way, c)

-- `block[set][way] = b`
abbrev pub write_block : Cache → ℕ → ℕ → Block → Cache
write_block c index way b = record c { block = set c.block index (set (set_at c index) way b) }

-- `b.valid = 0`
unfoldable pub cleared_block : Block → Block
cleared_block b = record b { valid = 0 }

unfoldable pub invalidate_entry : Cache → ℕ → Run (Option ℕ × Cache)
invalidate_entry c inval_addr =
    let index = get_set c inval_addr in
    if ltb c.num_set index
    then abort
    else ok (elim (find_way (holds inval_addr) (set_at c index) 0 c.num_way) [
      | some way ↦
          (some way, write_block c index way (cleared_block (block_at (set_at c index) way)))
      | none ↦ (none, c)
    ])

-- The block that `fill_cache` leaves in place of `b`; the rank is not touched.
unfoldable pub filled_block : Block → Packet → Block
filled_block b packet = record b {
  valid = if b.valid == 0 then 1 else b.valid;
  dirty = 0;
  prefetch = if packet.type == prefetch then 1 else 0;
  used = 0;
  delta = packet.delta;
  depth = packet.depth;
  signature = packet.signature;
  confidence = packet.confidence;
  tag = packet.address;
  address = packet.address;
  full_addr = packet.full_addr;
  data_value = packet.data_value;
  cpu = packet.cpu;
  instr_id = packet.instr_id;
}

-- The state that `fill_cache` leaves.
unfoldable pub filled_cache : Cache → ℕ → ℕ → Packet → Cache
filled_cache c index way packet =
    let b = block_at (set_at c index) way in
    let prefetched = packet.type == prefetch in
    record (write_block c index way (filled_block b packet)) {
      pf_useless =
          if not (b.prefetch == 0) && b.used == 0 then inc64 c.pf_useless else c.pf_useless;
      pf_filled = if prefetched then inc64 c.pf_filled else c.pf_filled;
      pf_filled_epoch = if prefetched then inc64 c.pf_filled_epoch else c.pf_filled_epoch;
    }

-- The assertions of `SANITY_CHECK`: a translation that fills a TLB is not 0.
unfoldable pub fill_cache : Cache → ℕ → ℕ → Packet → Run Cache
fill_cache c index way packet =
    if (c.cache_type == is_itlb || c.cache_type == is_dtlb || c.cache_type == is_stlb)
      && packet.data_value == 0
    then abort
    else ok (filled_cache c index way packet)
