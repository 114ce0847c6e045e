-- ===== src/Cache/Prefetches/Append.antt =====
-- What `add_pq` does to the queues of a cache.
use Prim.Native.String.{String}
use arishem.Base.{
  ℕ, ◌<◌, ◌≡◌, ◌≢◌, refl, [], ◌∷◌, ◌++◌, arith, ◌==◌, Returns, true, false, ◌||◌, not, length,
  get_or-set_self, get_or-set_ne, inl, inr, Bool-cases, Option-cases, none, some,
}
use arishem.Base.Int.{negsuc, pos, ltb_ℤ}
use arishem.Packet.{Packet, packet_at}
use arishem.PacketQueue.{check_queue, append_entry, line_of}
use arishem.PacketQueue.Refine.{contents, contents-append_entry}
use arishem.PacketQueue.Find.{check_queue-lt}
use arishem.PacketQueue.Tidy.{IsTidy, append_entry-IsTidy, set-IsTidy}
use arishem.Cache.State.{Cache, Clock, upcall}
use arishem.Cache.Requests.{Reply, delayed, forwarded_packet, forwarded_calls}
use arishem.Cache.Requests.Latency.{line_of-delayed, empty_tail}
use arishem.Cache.Prefetches.{
  add_pq_forwarded, merged_prefetch, add_pq_merged, refused_prefetch, appended_prefetch, add_pq_new,
  add_pq,
}

-- The queues that a prefetch passes through.
pub record IsPrefetchReady (c : Cache) : Type 0 where
  pub wq : IsTidy c.wq
  pub pq : IsTidy c.pq
  pub pq_size : c.pq.size ≡ c.pq_size

line_of-merged_prefetch :
    (name : String) (e p : Packet)
    → ((merged_prefetch e p).address ≡ e.address)
      × (line_of name (merged_prefetch e p) ≡ line_of name e)
unfolding merged_prefetch
line_of-merged_prefetch name e p = elim (Bool-cases (ltb_ℤ p.fill_level e.fill_level)) [
  | inl y ↦ rw y (refl, refl)
  | inr z ↦ rw z (refl, refl)
]

-- The answer of a waiting write: if the request is to fill a level above, its packet goes up with
-- the data of the write; otherwise nothing does.
pub record Answered (c : Cache) (p : Packet) (i : ℕ) (r : Reply) : Type 0 where
  pub above :
      ltb_ℤ p.fill_level c.fill_level ≡ true
      → (r.packet ≡ record p { data_value = (packet_at c.wq.entry i).data_value })
        × (r.calls ≡ upcall r.packet ∷ [])
  pub here : ltb_ℤ p.fill_level c.fill_level ≡ false → (r.packet ≡ p) × (r.calls ≡ [])

-- The waiting prefetch fills the lower of the two levels and is otherwise as it was, and so are
-- all the others.
pub record Merged (c : Cache) (p : Packet) (i : ℕ) (d : Cache) : Type 0 where
  pub lower :
      ltb_ℤ p.fill_level (packet_at c.pq.entry i).fill_level ≡ true
      → packet_at d.pq.entry i ≡ record (packet_at c.pq.entry i) { fill_level = p.fill_level }
  pub not_lower :
      ltb_ℤ p.fill_level (packet_at c.pq.entry i).fill_level ≡ false
      → packet_at d.pq.entry i ≡ packet_at c.pq.entry i
  pub others : (j : ℕ) → i ≢ j → packet_at d.pq.entry j ≡ packet_at c.pq.entry j

-- What a prefetch request does: a waiting write answers it, a waiting prefetch of its line takes
-- it in, a full queue refuses it with -2, and otherwise it is appended.
pub data Prefetched (clock : Clock) (c : Cache) (p : Packet) (r : Reply) : Type 0 where
  forwarded :
      (i : ℕ)
      → check_queue c.wq p ≡ some i
      → r.result ≡ negsuc 0
      → contents r.cache.pq ≡ contents c.pq
      → Answered c p i r
      → Prefetched clock c p r
  merged :
      (i : ℕ)
      → check_queue c.wq p ≡ none
      → check_queue c.pq p ≡ some i
      → r.result ≡ pos i
      → r.calls ≡ []
      → Merged c p i r.cache
      → Prefetched clock c p r
  refused :
      check_queue c.wq p ≡ none
      → check_queue c.pq p ≡ none
      → c.pq.occupancy ≡ c.pq.size
      → r.result ≡ negsuc 1
      → r.calls ≡ []
      → contents r.cache.pq ≡ contents c.pq
      → Prefetched clock c p r
  appended :
      check_queue c.wq p ≡ none
      → check_queue c.pq p ≡ none
      → r.result ≡ negsuc 0
      → r.calls ≡ []
      → contents r.cache.pq ≡ contents c.pq ++ delayed clock c.latency p ∷ []
      → Prefetched clock c p r

add_pq_forwarded-Answered :
    (c : Cache) (p : Packet) (i : ℕ) → Answered c p i (add_pq_forwarded c p i)
unfolding add_pq_forwarded forwarded_packet forwarded_calls
add_pq_forwarded-Answered c p i = record {
  above = λ e. rw e (refl, refl);
  here = λ e. rw e (refl, refl);
}

add_pq_merged-Merged :
    (c : Cache) (p : Packet) (i : ℕ)
    → i < length c.pq.entry
    → Merged c p i (add_pq_merged c p i).cache
unfolding add_pq_merged merged_prefetch
add_pq_merged-Merged c p i lt =
    let e = packet_at c.pq.entry i in
    record {
      lower =
          λ h. rw h (get_or-set_self c.pq.entry i (record e { fill_level = p.fill_level }) _ lt);
      not_lower = λ h. rw h (get_or-set_self c.pq.entry i e _ lt);
      others = λ j ne. get_or-set_ne c.pq.entry i j (merged_prefetch e p) _ ne;
    }

-- The counters of prefetches, which the callers of `add_pq` keep.
pub record SameCounters (c d : Cache) : Type 0 where
  pub requested : d.pf_requested ≡ c.pf_requested
  pub issued : d.pf_issued ≡ c.pf_issued
  pub dropped : d.pf_dropped ≡ c.pf_dropped

-- `add_pq` of a line other than 0 reaches no assertion of a ready cache and leaves it ready: as
-- the queues say, the request is answered by a waiting write, whose data goes up if a level above
-- is to be filled (-1), merged into a waiting prefetch, which then fills the lower of the two levels
-- (its index), refused by a full queue (-2), or appended with the latency added (-1). The counters
-- of prefetches are as before.
pub add_pq_lem :
    (clock : Clock) (c : Cache) (p : Packet)
    → IsPrefetchReady c
    → p.address ≢ 0
    → Returns
        (add_pq clock c p)
        λ r. IsPrefetchReady r.cache × SameCounters c r.cache × Prefetched clock c p r
unfolding add_pq add_pq_new add_pq_forwarded add_pq_merged refused_prefetch appended_prefetch
    append_entry
add_pq_lem clock c p v ne = elim (Option-cases (check_queue c.wq p)) [
  | inr (i, w) ↦ (
    add_pq_forwarded c p i,
    rw (w, add_pq),
    (
      record { wq = v.wq; pq = v.pq; pq_size = v.pq_size },
      record { requested = refl; issued = refl; dropped = refl },
      forwarded i w refl refl (add_pq_forwarded-Answered c p i),
    ),
  )
  | inl w ↦ elim (Option-cases (check_queue c.pq p)) [
    | inr (i, m) ↦
        let q = c.pq in
        let inside : i < length q.entry =
          omega (arith, check_queue-lt q p i v.pq.ring m, v.pq.ring.places) in
        let same = line_of-merged_prefetch q.name (packet_at q.entry i) p in
        let t =
          set-IsTidy q.name q.size q.entry q.head q.tail q.occupancy i
            (merged_prefetch (packet_at q.entry i) p) v.pq (check_queue-lt q p i v.pq.ring m) same.0
            same.1 in
        (
          add_pq_merged c p i,
          rw (w, add_pq, m),
          (
            record { wq = v.wq; pq = t; pq_size = v.pq_size },
            record { requested = refl; issued = refl; dropped = refl },
            merged i w m refl refl (add_pq_merged-Merged c p i inside),
          ),
        )
    | inl m ↦ elim (Bool-cases (c.pq.occupancy == c.pq_size)) [
      | inl full ↦ (
        refused_prefetch c p,
        rw (w, add_pq, m, full),
        (
          record { wq = v.wq; pq = v.pq; pq_size = v.pq_size },
          record { requested = refl; issued = refl; dropped = refl },
          refused w m (ground (arith, v.pq_size)) refl refl refl,
        ),
      )
      | inr free ↦
          let room : c.pq.occupancy < c.pq.size = ground (arith, v.pq_size, v.pq.ring.within) in
          let fine : (not ((packet_at c.pq.entry c.pq.tail).address == 0) || p.address == 0)
              ≡ false =
            ground (arith, empty_tail c.pq v.pq room) in
          let p' = delayed clock c.latency p in
          let t =
            append_entry-IsTidy c.pq p p' v.pq room m
              (line_of-delayed c.pq.name clock c.latency p) in
          (
            appended_prefetch clock c p,
            rw (w, add_pq, m, free, fine),
            (
              record { wq = v.wq; pq = t; pq_size = v.pq_size },
              record { requested = refl; issued = refl; dropped = refl },
              appended w m refl refl (contents-append_entry c.pq p' v.pq.ring room),
            ),
          )
    ]
  ]
]
