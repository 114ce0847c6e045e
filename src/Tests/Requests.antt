-- ===== src/Tests/Requests.antt =====
-- Runs of the requests of src/cache.cc, on a cache with one waiting read and one waiting write.
use arishem.Base.{
  ◌<◌, ◌≡◌, ◌≢◌, ◌⊎◌, inr, refl, arith, [], ◌∷◌, ◌++◌, Returns, none, inc64, page_of,
}
use arishem.Base.Int.{pos, negsuc}
use arishem.PacketQueue.{
  PacketQueue, new_queue, is_l1d_wq, same_line, scan, check_queue, append_entry,
}
use arishem.PacketQueue.Refine.{contents, new_queue-IsValid}
use arishem.PacketQueue.Tidy.{IsTidy, new_queue-IsTidy, append_entry-IsTidy}
use arishem.Cache.State.{Cache}
use arishem.Cache.Requests.{delayed}
use arishem.Cache.Reads.{add_rq}
use arishem.Cache.Reads.Append.{IsReadReady, add_rq-IsReadReady, add_rq_lem}
use arishem.Cache.Writes.{add_wq}
use arishem.Cache.Writes.Append.{Written, add_wq_lem}
use arishem.Cache.Prefetches.{add_pq, prefetch_packet, prefetch_line, kpc_prefetch_line}
use arishem.Cache.Prefetches.Append.{IsPrefetchReady, Prefetched, SameCounters, add_pq_lem}
use arishem.Cache.Prefetches.Line.{Issued, prefetch_line_lem, kpc_prefetch_line_lem}
use arishem.Tests.Data.{uninit, load_of, cache_of, clock}

abbrev two_places : PacketQueue
two_places = new_queue uninit "L2C" 2

abbrev one_waits : PacketQueue
one_waits = append_entry two_places (load_of 3)

two_places-IsTidy : IsTidy two_places
two_places-IsTidy = new_queue-IsTidy uninit "L2C" 2 (omega arith) (omega arith)

one_waits-IsTidy : IsTidy one_waits
unfolding check_queue new_queue
one_waits-IsTidy =
    append_entry-IsTidy two_places (load_of 3) (load_of 3) two_places-IsTidy (omega arith) refl refl

-- Line 3 waits in each queue, line 4 in none.
abbrev busy : Cache
busy = cache_of one_waits one_waits one_waits two_places

absent : check_queue one_waits (load_of 4) ≡ none
unfolding check_queue append_entry new_queue same_line scan is_l1d_wq
absent = refl

busy-IsReadReady : IsReadReady busy
unfolding append_entry new_queue
busy-IsReadReady = record {
  wq = one_waits-IsTidy;
  rq = one_waits-IsTidy;
  processed = (new_queue-IsValid uninit "L2C_PROCESSED" 2 (omega arith) (omega arith)).0;
  rq_size = refl;
}

add_rq-IsReadReady_example : Returns (add_rq clock busy (load_of 3)) λ r. IsReadReady r.cache
add_rq-IsReadReady_example =
    add_rq-IsReadReady clock busy (load_of 3) busy-IsReadReady (λ e. absurd (omega arith))
      (inr refl)

add_rq_lem_example : Returns (add_rq clock busy (load_of 4)) λ r.
    (r.calls ≡ [])
    × (((busy.rq.occupancy < busy.rq.size)
          × (r.result ≡ negsuc 0)
          × (contents r.cache.rq ≡ contents busy.rq ++ delayed clock busy.latency (load_of 4) ∷ []))
        ⊎ ((busy.rq.occupancy ≡ busy.rq.size)
            × (r.result ≡ negsuc 1)
            × (contents r.cache.rq ≡ contents busy.rq)))
add_rq_lem_example =
    add_rq_lem clock busy (load_of 4) busy-IsReadReady (λ e. absurd (omega arith)) absent absent

add_wq_lem_example : Returns (add_wq clock busy (load_of 4)) (Written clock busy (load_of 4))
unfolding append_entry new_queue
add_wq_lem_example = add_wq_lem clock busy (load_of 4) one_waits-IsTidy (inr (omega arith))

busy-IsPrefetchReady : IsPrefetchReady busy
unfolding append_entry new_queue
busy-IsPrefetchReady = record { wq = one_waits-IsTidy; pq = one_waits-IsTidy; pq_size = refl }

add_pq_lem_example :
    Returns
      (add_pq clock busy (load_of 4))
      λ r. IsPrefetchReady r.cache × SameCounters busy r.cache × Prefetched clock busy (load_of 4) r
add_pq_lem_example =
    add_pq_lem clock busy (load_of 4) busy-IsPrefetchReady (λ e. absurd (omega arith))

prefetch_line_lem_example : Returns (prefetch_line uninit clock busy 8 192 256 (pos 2) 0) λ r.
    ((busy.pq.occupancy < busy.pq.size)
      × Issued clock
          (record busy { pf_requested = inc64 busy.pf_requested })
          (prefetch_packet uninit clock busy 8 256 (pos 2) 0)
          r
      × (r.1.pf_requested ≡ inc64 busy.pf_requested)
      × (r.1.pf_issued ≡ inc64 busy.pf_issued))
    ⊎ ((busy.pq.occupancy ≡ busy.pq.size)
        × (r.0 ≡ 0)
        × (r.1 ≡ record busy {
          pf_requested = inc64 busy.pf_requested;
          pf_dropped = inc64 busy.pf_dropped;
        })
        × (r.2 ≡ []))
prefetch_line_lem_example =
    prefetch_line_lem uninit clock busy 8 192 256 (pos 2) 0 busy-IsPrefetchReady (omega arith)

kpc_prefetch_line_lem_example :
    Returns
      (kpc_prefetch_line uninit clock busy 192 256 (pos 2) (pos 1) (pos 1) (pos 9) (pos 80) 0)
      λ r.
        ((page_of 192 ≡ page_of 256)
          × (busy.pq.occupancy < busy.pq.size)
          × Issued clock busy
              (record (prefetch_packet uninit clock busy 0 256 (pos 2) 0) {
                delta = pos 1;
                depth = pos 1;
                signature = pos 9;
                confidence = pos 80;
              })
              r)
        ⊎ (((page_of 192 ≢ page_of 256) ⊎ (busy.pq.occupancy ≡ busy.pq.size)) × (r ≡ (0, busy, [])))
kpc_prefetch_line_lem_example =
    kpc_prefetch_line_lem uninit clock busy 192 256 (pos 2) (pos 1) (pos 1) (pos 9) (pos 80) 0
      busy-IsPrefetchReady (omega arith)
