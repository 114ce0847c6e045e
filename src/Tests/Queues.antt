-- ===== src/Tests/Queues.antt =====
-- Runs of the packet queue of src/block.cc and of the replacement policy.
use mathlib.Core.Option
use arishem.Base.{ℕ, zero, suc, ◌+◌, ◌≡◌, ◌<◌, refl, arith, [], ◌∷◌, ◌++◌, Returns}
use arishem.Packet.{packet_at}
use arishem.PacketQueue.{
  PacketQueue, new_queue, check_queue, append_entry, add_queue, remove_queue, same_line,
}
use arishem.PacketQueue.Window.{wrap}
use arishem.PacketQueue.Refine.{
  IsValid, contents, new_queue-IsValid, append_entry-IsValid, add_queue_lem, remove_queue_lem,
}
use arishem.PacketQueue.Find.{find_index, check_queue-find_index}
use arishem.Cache.State.{block_at}
use arishem.Cache.Lru.{lru_update, lru_victim}
use arishem.Cache.Lru.Rank.{count_rank, IsRanked, lru_update-IsRanked}
use arishem.Cache.Lru.Victim.{IsVictim, lru_victim_lem}
use arishem.Cache.Lru.History.{touch_all, later_use-lt}
use arishem.Tests.Data.{uninit, load_of, two_ways}

abbrev one_read : PacketQueue
one_read = append_entry (new_queue uninit "L2C_RQ" 2) (load_of 3)

one_place : (new_queue uninit "L2C_RQ" 2).occupancy < (new_queue uninit "L2C_RQ" 2).size
unfolding new_queue
one_place = omega arith

one_read-IsValid : IsValid one_read
one_read-IsValid =
    append_entry-IsValid (new_queue uninit "L2C_RQ" 2) (load_of 3)
      (new_queue-IsValid uninit "L2C_RQ" 2 (omega arith) (omega arith)).0 one_place

check_queue-find_index_example :
    check_queue one_read (load_of 3)
    ≡ Option.map
        (λ k. wrap one_read.size (one_read.head + k))
        (find_index (same_line one_read.name (load_of 3)) (contents one_read))
check_queue-find_index_example = check_queue-find_index one_read (load_of 3) one_read-IsValid

add_queue_lem_example :
    Returns
      (add_queue one_read (load_of 4))
      λ q'. IsValid q' × (contents q' ≡ contents one_read ++ load_of 4 ∷ [])
unfolding append_entry new_queue
add_queue_lem_example = add_queue_lem one_read (load_of 4) one_read-IsValid (omega arith)

remove_queue_lem_example :
    Returns
      (remove_queue uninit one_read one_read.head)
      λ q'. IsValid q' × (contents one_read ≡ packet_at one_read.entry one_read.head ∷ contents q')
unfolding append_entry new_queue
remove_queue_lem_example = remove_queue_lem uninit one_read one_read-IsValid (omega arith)

ranks : (r : ℕ) → r < 2 → count_rank r two_ways ≡ 1
unfolding count_rank
ranks zero h = refl
ranks (suc zero) h = refl
ranks (suc (suc r)) h = absurd (omega arith)

two_ways-IsRanked : IsRanked 2 two_ways
two_ways-IsRanked = record {
  ways = refl;
  small = omega arith;
  below = (omega arith, (omega arith, tt));
  once = ranks;
}

lru_update-IsRanked_example : IsRanked 2 (lru_update two_ways 1)
lru_update-IsRanked_example = lru_update-IsRanked 2 two_ways 1 (omega arith) two_ways-IsRanked

lru_victim_lem_example : Returns (lru_victim 2 two_ways) λ w. (w < 2) × IsVictim 2 two_ways w
lru_victim_lem_example = lru_victim_lem 2 two_ways (omega arith) two_ways-IsRanked

later_use-lt_example :
    (block_at (touch_all two_ways ((1 ∷ []) ++ 0 ∷ [])) 0).lru
    < (block_at (touch_all two_ways ((1 ∷ []) ++ 0 ∷ [])) 1).lru
later_use-lt_example =
    later_use-lt 2 two_ways (1 ∷ []) [] 0 1 two_ways-IsRanked (omega arith, tt) (omega arith)
      (omega arith) (λ e. absurd (omega arith)) tt
