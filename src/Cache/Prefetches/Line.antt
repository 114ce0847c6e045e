-- ===== src/Cache/Prefetches/Line.antt =====
-- `prefetch_line` and `kpc_prefetch_line` never ask a full queue, so no prefetch that they report
-- as issued is lost.
use arishem.Base.{
  ℕ, ◌^◌, ◌≤◌, ◌<◌, ◌≡◌, ◌≢◌, refl, ap, List, [], arith, ok, ltb, ◌==◌, Returns, inl, inr, ◌⊎◌,
  Bool-cases, inc64, page_of,
}
use arishem.Base.Int.{ℤ, negsuc}
use arishem.Packet.{Packet, Uninit}
use arishem.Cache.State.{Cache, Clock, Upcall}
use arishem.Cache.Requests.{Reply}
use arishem.Cache.Prefetches.{add_pq, issued, prefetch_packet, prefetch_line, kpc_prefetch_line}
use arishem.Cache.Prefetches.Append.{
  IsPrefetchReady, Prefetched, forwarded, merged, refused, appended, add_pq_lem,
}

-- The packet was handed to `add_pq`, which did not refuse it: a waiting write answered it, a waiting
-- prefetch took it in, or it was appended. The state is the one that `add_pq` left, with one more
-- prefetch issued.
pub record Issued (clock : Clock) (c : Cache) (p : Packet) (r : ℕ × Cache × List Upcall)
    : Type 0 where
  pub reply : Reply
  pub asked : add_pq clock c p ≡ ok reply
  pub taken : Prefetched clock c p reply
  pub not_refused : reply.result ≢ negsuc 1
  pub number : r.0 ≡ 1
  pub state : r.1 ≡ record (reply.cache) { pf_issued = inc64 reply.cache.pf_issued }
  pub requested : r.1.pf_requested ≡ c.pf_requested
  pub issued_one : r.1.pf_issued ≡ inc64 c.pf_issued
  pub none_dropped : r.1.pf_dropped ≡ c.pf_dropped
  pub calls : r.2 ≡ reply.calls
  pub ready : IsPrefetchReady r.1

result_ne :
    (clock : Clock) (c : Cache) (p : Packet) (r : Reply)
    → Prefetched clock c p r
    → c.pq.occupancy < c.pq.size
    → r.result ≢ negsuc 1
result_ne clock c p r (forwarded i w e q a) room h = cc (e, h)
result_ne clock c p r (merged i w m e q s) room h = cc (e, h)
result_ne clock c p r (refused w m full e q s) room h = absurd (omega arith)
result_ne clock c p r (appended w m e q s) room h = cc (e, h)

issued_lem :
    (clock : Clock) (c : Cache) (p : Packet)
    → IsPrefetchReady c
    → p.address ≢ 0
    → c.pq.occupancy < c.pq.size
    → Returns (issued (add_pq clock c p)) (Issued clock c p)
unfolding issued
issued_lem clock c p v ne room =
    let (r, e, (t, same, d)) = add_pq_lem clock c p v ne in
    (
      (1, record (r.cache) { pf_issued = inc64 r.cache.pf_issued }, r.calls),
      rw e,
      record {
        reply = r;
        asked = e;
        taken = d;
        not_refused = result_ne clock c p r d room;
        number = refl;
        state = refl;
        requested = same.requested;
        issued_one = ap inc64 same.issued;
        none_dropped = same.dropped;
        calls = refl;
        ready = record { wq = t.wq; pq = t.pq; pq_size = t.pq_size };
      },
    )

prefetch_packet-ne :
    (u : Uninit) (clock : Clock) (c : Cache) (ip pf_addr : ℕ) (level : ℤ) (metadata : ℕ)
    → 2 ^ 6 ≤ pf_addr
    → (prefetch_packet u clock c ip pf_addr level metadata).address ≢ 0
unfolding prefetch_packet
prefetch_packet-ne u clock c ip pf_addr level metadata h e = absurd (omega arith)

-- `prefetch_line` of a ready cache, to a line other than the first of memory, returns: with room
-- in the prefetch queue `add_pq` is asked and does not refuse (a waiting write answers the prefetch,
-- a waiting one takes it in, or it is appended), the result is 1 and one more prefetch counts as
-- requested and as issued; with no room the result is 0, and all that changes is that one more counts
-- as requested and as dropped.
pub prefetch_line_lem :
    (u : Uninit) (clock : Clock) (c : Cache) (ip base_addr pf_addr : ℕ) (level : ℤ) (metadata : ℕ)
    → IsPrefetchReady c
    → 2 ^ 6 ≤ pf_addr
    → Returns (prefetch_line u clock c ip base_addr pf_addr level metadata) λ r.
      ((c.pq.occupancy < c.pq.size)
        × Issued clock
            (record c { pf_requested = inc64 c.pf_requested })
            (prefetch_packet u clock c ip pf_addr level metadata)
            r
        × (r.1.pf_requested ≡ inc64 c.pf_requested)
        × (r.1.pf_issued ≡ inc64 c.pf_issued))
      ⊎ ((c.pq.occupancy ≡ c.pq.size)
          × (r.0 ≡ 0)
          × (r.1
              ≡ record c { pf_requested = inc64 c.pf_requested; pf_dropped = inc64 c.pf_dropped })
          × (r.2 ≡ []))
unfolding prefetch_line
prefetch_line_lem u clock c ip base_addr pf_addr level metadata v h =
    let requested = record c { pf_requested = inc64 c.pf_requested } in
    let ready : IsPrefetchReady requested = record { wq = v.wq; pq = v.pq; pq_size = v.pq_size } in
    elim (Bool-cases (ltb c.pq.occupancy c.pq.size)) [
      | inl room ↦
          let lt : c.pq.occupancy < c.pq.size = ground arith in
          let p = prefetch_packet u clock c ip pf_addr level metadata in
          let (r, e, d) =
            issued_lem clock requested p ready
              (prefetch_packet-ne u clock c ip pf_addr level metadata h) lt in
          (r, rw room e, inl (lt, d, d.requested, d.issued_one))
      | inr full ↦ (
        (0, record requested { pf_dropped = inc64 c.pf_dropped }, []),
        rw full,
        inr (ground (arith, v.pq.ring.within), refl, refl, refl),
      )
    ]

-- `kpc_prefetch_line` of a ready cache, to a line other than the first of memory, returns.
-- It asks `add_pq` exactly with room and within the page of the base address; it is then not refused
-- (a waiting write answers the prefetch, a waiting one takes it in, or it is appended), the result
-- is 1 and one more prefetch counts as issued. Otherwise the result is 0 and nothing changes.
pub kpc_prefetch_line_lem :
    (u : Uninit) (clock : Clock) (c : Cache) (base_addr pf_addr : ℕ)
    (level delta depth signature confidence : ℤ) (metadata : ℕ)
    → IsPrefetchReady c
    → 2 ^ 6 ≤ pf_addr
    → Returns
        (kpc_prefetch_line u clock c base_addr pf_addr level delta depth signature confidence
          metadata)
        λ r.
          ((page_of base_addr ≡ page_of pf_addr)
            × (c.pq.occupancy < c.pq.size)
            × Issued clock c
                (record (prefetch_packet u clock c 0 pf_addr level metadata) {
                  delta = delta;
                  depth = depth;
                  signature = signature;
                  confidence = confidence;
                })
                r)
          ⊎ (((page_of base_addr ≢ page_of pf_addr) ⊎ (c.pq.occupancy ≡ c.pq.size))
              × (r ≡ (0, c, [])))
unfolding kpc_prefetch_line
kpc_prefetch_line_lem u clock c base_addr pf_addr level delta depth signature confidence metadata v
      h =
    let p = record (prefetch_packet u clock c 0 pf_addr level metadata) {
      delta = delta;
      depth = depth;
      signature = signature;
      confidence = confidence;
    } in
    elim (Bool-cases (ltb c.pq.occupancy c.pq.size)) [
      | inr full ↦ ((0, c, []), rw full, inr (inr (ground (arith, v.pq.ring.within)), refl))
      | inl room ↦ elim (Bool-cases (page_of base_addr == page_of pf_addr)) [
        | inr other ↦ ((0, c, []), rw (room, other), inr (inl (ground arith), refl))
        | inl same ↦
            let lt : c.pq.occupancy < c.pq.size = ground arith in
            let (r, e, d) =
              issued_lem clock c p v (prefetch_packet-ne u clock c 0 pf_addr level metadata h) lt in
            (r, rw (room, same) e, inl (ground arith, lt, d))
      ]
    ]
