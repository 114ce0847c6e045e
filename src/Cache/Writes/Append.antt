-- ===== src/Cache/Writes/Append.antt =====
-- What `add_wq` does to the write queue.
use arishem.Base.{
  ℕ, ◌<◌, ◌≡◌, ◌≢◌, refl, [], ◌∷◌, ◌++◌, arith, leb, ◌==◌, Returns, false, ◌||◌, not, inl, inr, ◌⊎◌,
  Option-cases, none, some,
}
use arishem.Base.Int.{negsuc, pos}
use arishem.Packet.{Packet, packet_at}
use arishem.PacketQueue.{check_queue, append_entry}
use arishem.PacketQueue.Refine.{contents, contents-append_entry}
use arishem.PacketQueue.Find.{check_queue-lt}
use arishem.PacketQueue.Tidy.{IsTidy, append_entry-IsTidy}
use arishem.Cache.State.{Cache, Clock}
use arishem.Cache.Requests.{Reply, delayed}
use arishem.Cache.Requests.Latency.{line_of-delayed, empty_tail}
use arishem.Cache.Writes.{merged_write, appended_write, add_wq}

-- What a write does: a second write of a waiting line is dropped into the first and its index is
-- returned; any other is appended with the latency added, and -1 is returned. Nothing is sent up.
pub record Written (clock : Clock) (c : Cache) (p : Packet) (r : Reply) : Type 0 where
  pub tidy : IsTidy r.cache.wq
  pub silent : r.calls ≡ []
  pub outcome :
      ((i : ℕ) × (check_queue c.wq p ≡ some i)
        × (r.result ≡ pos i)
        × (i < c.wq.size)
        × (contents r.cache.wq ≡ contents c.wq))
      ⊎ ((check_queue c.wq p ≡ none)
          × (r.result ≡ negsuc 0)
          × (contents r.cache.wq ≡ contents c.wq ++ delayed clock c.latency p ∷ []))

-- `add_wq` on a tidy write queue returns if the line waits there already or if there is room: a
-- second write of a waiting line is dropped into the first and its index is returned; any other
-- is appended with the latency added, and -1 is returned. The queue stays tidy and nothing is
-- sent up.
pub add_wq_lem :
    (clock : Clock) (c : Cache) (p : Packet)
    → IsTidy c.wq
    → (check_queue c.wq p ≢ none) ⊎ (c.wq.occupancy < c.wq.size)
    → Returns (add_wq clock c p) (Written clock c p)
unfolding add_wq merged_write appended_write append_entry
add_wq_lem clock c p t may = elim (Option-cases (check_queue c.wq p)) [
  | inr (i, e) ↦ (
    merged_write c p i,
    rw (e, add_wq),
    record {
      tidy = t;
      silent = refl;
      outcome = inl (i, e, refl, check_queue-lt c.wq p i t.ring e, refl);
    },
  )
  | inl e ↦
      let room : c.wq.occupancy < c.wq.size = elim may [
        | inl found ↦ absurd (found e)
        | inr room ↦ room
      ] in
      let fine : (leb c.wq.size c.wq.occupancy
            || not ((packet_at c.wq.entry c.wq.tail).address == 0))
          ≡ false =
        ground (arith, empty_tail c.wq t room) in
      let p' = delayed clock c.latency p in
      (
        appended_write clock c p,
        rw (e, add_wq, fine),
        record {
          tidy =
              append_entry-IsTidy c.wq p p' t room e (line_of-delayed c.wq.name clock c.latency p);
          silent = refl;
          outcome = inr (e, refl, contents-append_entry c.wq p' t.ring room);
        },
      )
]
