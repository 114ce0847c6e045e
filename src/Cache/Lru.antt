-- ===== src/Cache/Lru.antt =====
-- The least-recently-used policy of replacement/base_replacement.cc. One set is a list of blocks.
pub mod Rank
pub mod Victim
pub mod History
use arishem.Base.{
  ℕ, zero, suc, ◌+◌, ◌-◌, Bool, ◌&&◌, not, List, [], ◌∷◌, Run, ok, abort, ltb, ◌==◌, Option, none,
  some, if◌then◌else◌, get_or, set, inc32,
}
use arishem.Packet.{writeback}
use arishem.Cache.State.{Block, Cache, block_at, set_at}

-- A loop `for (way = 0; way < NUM_WAY; way++) if (…) break;`: the first of `left` ways from `way`
-- on that passes the test.
unfoldable pub find_way : (Block → Bool) → List Block → ℕ → ℕ → Option ℕ
find_way test blocks way zero = none
find_way test blocks way (suc left) =
    if test (block_at blocks way) then some way else find_way test blocks (way + 1) left

abbrev pub is_invalid : Block → Bool
is_invalid b = b.valid == 0

abbrev pub has_lru : ℕ → Block → Bool
has_lru rank b = b.lru == rank

-- `lru_victim` for a set of `num_way` ways: an invalid way, else the one of the last rank.
unfoldable pub lru_victim : ℕ → List Block → Run ℕ
lru_victim num_way blocks = elim (find_way is_invalid blocks 0 num_way) [
  | some way ↦ ok way
  | none ↦ elim (find_way (has_lru (num_way - 1)) blocks 0 num_way) [
    | some way ↦ ok way
    | none ↦ abort
  ]
]

-- The loop of `lru_update`: blocks of a rank below `rank` age by one.
unfoldable pub age_below : ℕ → List Block → List Block
age_below rank [] = []
age_below rank (b ∷ bs) =
    (if ltb b.lru rank then record b { lru = inc32 b.lru } else b) ∷ age_below rank bs

-- `lru_update`; the touched way is never aged, since its rank is not below itself.
unfoldable pub lru_update : List Block → ℕ → List Block
lru_update blocks way =
    let aged = age_below (block_at blocks way).lru blocks in
    set aged way (record (block_at aged way) { lru = 0 })

-- `find_victim`
unfoldable pub find_victim : Cache → ℕ → Run ℕ
find_victim c index = lru_victim c.num_way (set_at c index)

-- `update_replacement_state`; a writeback hit does not count as a use.
unfoldable pub update_replacement_state : Cache → ℕ → ℕ → ℕ → ℕ → Cache
update_replacement_state c index way type hit =
    if type == writeback && not (hit == 0)
    then c
    else record c { block = set c.block index (lru_update (set_at c index) way) }
