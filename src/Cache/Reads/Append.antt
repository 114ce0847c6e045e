-- ===== src/Cache/Reads/Append.antt =====
-- What `add_rq` does to the queues of a cache.
use Prim.Native.String.{String}
use arishem.Base.{
  ℕ, ◌<◌, ◌≡◌, ◌≢◌, refl, [], ◌∷◌, ◌++◌, arith, ltb, ◌==◌, Returns, ok, Bool, true, false, ◌&&◌,
  ◌||◌, not, inl, inr, ◌⊎◌, Bool-cases, Option-cases, none,
}
use arishem.Base.Int.{negsuc}
use arishem.Packet.{Packet, packet_at, prefetch, rfo}
use arishem.PacketQueue.{check_queue, append_entry, line_of}
use arishem.PacketQueue.Refine.{IsValid, contents, contents-append_entry, add_queue_lem}
use arishem.PacketQueue.Find.{check_queue-lt}
use arishem.PacketQueue.Tidy.{IsTidy, append_entry-IsTidy, set-IsTidy}
use arishem.Cache.State.{Cache, Clock, is_itlb, is_dtlb, is_l1i, is_l1d}
use arishem.Cache.Requests.{delayed, forwarded_packet}
use arishem.Cache.Requests.Latency.{line_of-delayed, empty_tail}
use arishem.Cache.Reads.{
  note_processed, add_rq_forwarded, forwarded_read, refused_read, appended_read, merged_read,
  add_rq_merged, add_rq_new, add_rq,
}

-- The queues that a read passes through.
pub record IsReadReady (c : Cache) : Type 0 where
  pub wq : IsTidy c.wq
  pub rq : IsTidy c.rq
  pub processed : IsValid c.processed
  pub rq_size : c.rq.size ≡ c.rq_size

-- The caches whose write queue can hold a line that is read.
abbrev pub takes_writes : Cache → Bool
takes_writes c = not (c.cache_type == is_itlb || c.cache_type == is_dtlb || c.cache_type == is_l1i)

note_processed-IsValid :
    (c : Cache) (p : Packet) → IsValid c.processed → Returns (note_processed c p) IsValid
unfolding note_processed
note_processed-IsValid c p v =
    elim (Bool-cases (
      c.cache_type == is_l1d
      && not (p.type == prefetch)
      && ltb c.processed.occupancy c.processed.size)) [
        | inl y ↦ let (q, e, w) = add_queue_lem c.processed p v (ground arith) in (q, rw y e, w.0)
        | inr z ↦ (c.processed, rw z, v)
      ]

forwarded-IsReadReady :
    (c : Cache) (p : Packet) (wq_index : ℕ)
    → IsReadReady c
    → takes_writes c ≡ true
    → Returns (add_rq_forwarded c p wq_index) λ r. IsReadReady r.cache
unfolding add_rq_forwarded forwarded_read
forwarded-IsReadReady c p wq_index v writes =
    let allowed : (c.cache_type == is_itlb || c.cache_type == is_dtlb || c.cache_type == is_l1i)
        ≡ false =
      ground arith in
    let (q, e, w) = note_processed-IsValid c (forwarded_packet c p wq_index) v.processed in
    (
      forwarded_read c p wq_index q,
      rw (allowed, e),
      record { wq = v.wq; rq = v.rq; processed = w; rq_size = v.rq_size },
    )

line_of-merged_read :
    (name : String) (e p : Packet)
    → ((merged_read e p).address ≡ e.address) × (line_of name (merged_read e p) ≡ line_of name e)
unfolding merged_read
line_of-merged_read name e p = elim (Bool-cases (not (p.instruction == 0))) [
  | inl y ↦ rw y (refl, refl)
  | inr z ↦ elim (Bool-cases (p.type == rfo)) [
    | inl y ↦ rw (z, y) (refl, refl)
    | inr z' ↦ rw (z, z') (refl, refl)
  ]
]

merged-IsReadReady :
    (c : Cache) (p : Packet) (index : ℕ)
    → IsReadReady c
    → index < c.rq.size
    → IsReadReady (add_rq_merged c p index).cache
unfolding add_rq_merged
merged-IsReadReady c p index v lt =
    let q = c.rq in
    let same = line_of-merged_read q.name (packet_at q.entry index) p in
    record {
      wq = v.wq;
      rq =
          set-IsTidy q.name q.size q.entry q.head q.tail q.occupancy index
            (merged_read (packet_at q.entry index) p) v.rq lt same.0 same.1;
      processed = v.processed;
      rq_size = v.rq_size;
    }

appended-IsReadReady :
    (clock : Clock) (c : Cache) (p : Packet)
    → IsReadReady c
    → c.rq.occupancy < c.rq.size
    → check_queue c.rq p ≡ none
    → IsReadReady (appended_read clock c p).cache
unfolding appended_read append_entry
appended-IsReadReady clock c p v room absent =
    let t =
      append_entry-IsTidy c.rq p (delayed clock c.latency p) v.rq room absent
        (line_of-delayed c.rq.name clock c.latency p) in
    record { wq = v.wq; rq = t; processed = v.processed; rq_size = v.rq_size }

-- The two outcomes of a read that nothing waiting answers.
pub add_rq-refused :
    (clock : Clock) (c : Cache) (p : Packet)
    → IsReadReady c
    → check_queue c.wq p ≡ none
    → check_queue c.rq p ≡ none
    → c.rq.occupancy ≡ c.rq.size
    → add_rq clock c p ≡ ok (refused_read c p)
unfolding add_rq add_rq_new
add_rq-refused clock c p v w r e =
    let full : (c.rq.occupancy == c.rq_size) ≡ true = ground (arith, v.rq_size) in
    rw (w, add_rq, r, full)

add_rq-appended :
    (clock : Clock) (c : Cache) (p : Packet)
    → IsReadReady c
    → p.address ≢ 0
    → check_queue c.wq p ≡ none
    → check_queue c.rq p ≡ none
    → c.rq.occupancy < c.rq.size
    → add_rq clock c p ≡ ok (appended_read clock c p)
unfolding add_rq add_rq_new
add_rq-appended clock c p v ne w r room =
    let not_full : (c.rq.occupancy == c.rq_size) ≡ false = ground (arith, v.rq_size) in
    let free : (not ((packet_at c.rq.entry c.rq.tail).address == 0) || p.address == 0) ≡ false =
      ground (arith, empty_tail c.rq v.rq room) in
    rw (w, add_rq, r, not_full, free)

-- A read request of a line other than 0 never reaches an assertion of a ready cache, and leaves
-- the cache ready: the queues keep their shape, their empty places stay empty, and no two waiting
-- reads, nor two waiting writes, have one line. (A line in the write queue is met only by caches
-- that take writes.)
pub add_rq-IsReadReady :
    (clock : Clock) (c : Cache) (p : Packet)
    → IsReadReady c
    → p.address ≢ 0
    → (check_queue c.wq p ≡ none) ⊎ (takes_writes c ≡ true)
    → Returns (add_rq clock c p) λ r. IsReadReady r.cache
unfolding add_rq
add_rq-IsReadReady clock c p v ne may_write = elim (Option-cases (check_queue c.wq p)) [
  | inr (i, w) ↦
      let allowed : takes_writes c ≡ true = elim may_write [ inl e ↦ cc (e, w) | inr e ↦ e ] in
      let (r, e, t) = forwarded-IsReadReady c p i v allowed in (r, rw (w, add_rq) e, t)
  | inl w ↦ elim (Option-cases (check_queue c.rq p)) [
    | inr (i, m) ↦ (
      add_rq_merged c p i,
      rw (w, add_rq, m),
      merged-IsReadReady c p i v (check_queue-lt c.rq p i v.rq.ring m),
    )
    | inl m ↦ elim (Bool-cases (ltb c.rq.occupancy c.rq.size)) [
      | inl room ↦ (
        appended_read clock c p,
        add_rq-appended clock c p v ne w m (ground arith),
        appended-IsReadReady clock c p v (ground arith) m,
      )
      | inr full ↦ (
        refused_read c p,
        add_rq-refused clock c p v w m (ground (arith, v.rq.ring.within)),
        unfold refused_read in
            record { wq = v.wq; rq = v.rq; processed = v.processed; rq_size = v.rq_size },
      )
    ]
  ]
]

-- On a ready cache, `add_rq` of a line other than 0 that is in neither queue returns: if the read
-- queue has room, the request is appended with the latency added and -1 is returned; if it is
-- full, -2 is returned and the waiting reads are as before. Nothing is sent up.
pub add_rq_lem :
    (clock : Clock) (c : Cache) (p : Packet)
    → IsReadReady c
    → p.address ≢ 0
    → check_queue c.wq p ≡ none
    → check_queue c.rq p ≡ none
    → Returns (add_rq clock c p) λ r.
      (r.calls ≡ [])
      × (((c.rq.occupancy < c.rq.size)
            × (r.result ≡ negsuc 0)
            × (contents r.cache.rq ≡ contents c.rq ++ delayed clock c.latency p ∷ []))
          ⊎ ((c.rq.occupancy ≡ c.rq.size)
              × (r.result ≡ negsuc 1)
              × (contents r.cache.rq ≡ contents c.rq)))
unfolding appended_read refused_read append_entry
add_rq_lem clock c p v ne w m = elim (Bool-cases (ltb c.rq.occupancy c.rq.size)) [
  | inl room ↦
      let lt : c.rq.occupancy < c.rq.size = ground arith in
      (
        appended_read clock c p,
        add_rq-appended clock c p v ne w m lt,
        (refl, inl (lt, refl, contents-append_entry c.rq (delayed clock c.latency p) v.rq.ring lt)),
      )
  | inr full ↦
      let e : c.rq.occupancy ≡ c.rq.size = ground (arith, v.rq.ring.within) in
      (refused_read c p, add_rq-refused clock c p v w m e, (refl, inr (e, refl, refl)))
]
