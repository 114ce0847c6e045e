-- ===== src/Cache/Steps/Spared.antt =====
-- The steps that leave the waiting reads and the read ports alone, except for what stands at one
-- place of the read queue.
use arishem.Base.{ℕ, zero, suc, ◌≡◌, refl, ◌∙◌, ap, List, [], ◌∷◌, set, arith}
use arishem.Base.Int.{ℤ}
use arishem.Packet.{Packet, Uninit, no_packet}
use arishem.PacketQueue.{PacketQueue, add_queue}
use arishem.Cache.State.{Cache, Clock, Upcall}
use arishem.Cache.Lru.{update_replacement_state}
use arishem.Cache.Prefetches.{
  prefetch_line, issued, add_pq, add_pq_new, add_pq_forwarded, add_pq_merged, refused_prefetch,
  appended_prefetch,
}
use arishem.Cache.Mshr.{return_data, add_mshr, stored_miss, noted_return, update_fill_cycle}
use arishem.Cache.World.Keeps.{IsPreorder, Ends}
use arishem.Cache.Steps.{
  writes, reads, prefetches, misses, queue_of, with_queue, with_entry, processed_with,
}

-- The queue with the place `i` emptied.
unfoldable pub vacated : ℕ → PacketQueue → PacketQueue
vacated i q = record q { entry = set q.entry i no_packet }

pub record Spares (i : ℕ) (c c' : Cache) : Type 0 where
  pub queue : vacated i c'.rq ≡ vacated i c.rq
  pub ports : c'.reads_available_this_cycle ≡ c.reads_available_this_cycle
  pub most : c'.max_read ≡ c.max_read

pub Spares-IsPreorder : (i : ℕ) → IsPreorder (Spares i)
Spares-IsPreorder i = record {
  same = λ c. record { queue = refl; ports = refl; most = refl };
  after = λ c c' c'' h k. record {
    queue = k.queue ∙ h.queue;
    ports = k.ports ∙ h.ports;
    most = k.most ∙ h.most;
  };
}

pub set-set : {A : Type 0} (xs : List A) (i : ℕ) (x y : A) → set (set xs i x) i y ≡ set xs i y
set-set [] i x y = refl
set-set (a ∷ xs) zero x y = refl
set-set (a ∷ xs) (suc i) x y = ap (λ l. a ∷ l) (set-set xs i x y)

module _ (i : ℕ) where
  pub with_entry-Spares : (c : Cache) (p : Packet) → Spares i c (with_entry reads i p c)
  unfolding with_entry with_queue queue_of vacated
  with_entry-Spares c p = record {
    queue = ap (λ l. record (c.rq) { entry = l }) (set-set c.rq.entry i p no_packet);
    ports = refl;
    most = refl;
  }

  pub misses-Spares : (c : Cache) (k : ℕ) (p : Packet) → Spares i c (with_entry misses k p c)
  unfolding with_entry with_queue queue_of
  misses-Spares c k p = search

  pub writes-Spares : (c : Cache) (k : ℕ) (p : Packet) → Spares i c (with_entry writes k p c)
  unfolding with_entry with_queue queue_of
  writes-Spares c k p = search

  pub prefetches-Spares :
      (c : Cache) (k : ℕ) (p : Packet) → Spares i c (with_entry prefetches k p c)
  unfolding with_entry with_queue queue_of
  prefetches-Spares c k p = search

  pub processed_with-Spares :
      (p : Packet) (c : Cache)
      → Ends (λ (r : Cache × Unit {0}). Spares i c r.0) (processed_with p c)
  unfolding processed_with add_queue
  processed_with-Spares p c = ground arith

  pub update_replacement_state-Spares :
      (c : Cache) (index way type hit : ℕ)
      → Spares i c (update_replacement_state c index way type hit)
  unfolding update_replacement_state
  update_replacement_state-Spares c index way type hit = ground arith

  pub return_data-Spares :
      (clock : Clock) (c : Cache) (p : Packet)
      → Ends (λ (c' : Cache). Spares i c c') (return_data clock c p)
  unfolding return_data noted_return update_fill_cycle
  return_data-Spares clock c p = ground arith

  pub add_mshr-Spares : (clock : Clock) (c : Cache) (p : Packet) → Spares i c (add_mshr clock c p).0
  unfolding add_mshr stored_miss
  add_mshr-Spares clock c p = ground arith

  pub prefetch_line-Spares :
      (u : Uninit) (clock : Clock) (c : Cache) (a b d m : ℕ) (l : ℤ)
      → Ends (λ (r : ℕ × Cache × List Upcall). Spares i c r.1) (prefetch_line u clock c a b d l m)
  unfolding prefetch_line issued add_pq add_pq_new add_pq_forwarded add_pq_merged refused_prefetch
      appended_prefetch
  prefetch_line-Spares u clock c a b d m l = ground arith
