-- ===== src/Cache/Steps/Tracking.antt =====
-- The shared steps of the handlers, as actions that keep the miss-status registers a set of lines and
-- lose none of them.
use arishem.Base.{ℕ, ◌≡◌, refl, List, [], ◌∷◌, Run, ok, abort, arith}
use arishem.Base.Int.{ℤ}
use arishem.Packet.{Packet, Uninit}
use arishem.PacketQueue.{add_queue, remove_queue}
use arishem.Cache.State.{Cache, Clock, Upcall}
use arishem.Cache.Lookup.{check_hit}
use arishem.Cache.Lru.{update_replacement_state}
use arishem.Cache.Prefetches.{
  prefetch_line, issued, add_pq, add_pq_new, add_pq_forwarded, add_pq_merged, refused_prefetch,
  appended_prefetch,
}
use arishem.Cache.World.{Prefetch, Advice, Sent, Neighbours}
use arishem.Cache.World.Action.{attempt}
use arishem.Cache.World.Keeps.{Ends, Keeps, Keeps-attempt, Keeps-change, Keeps-bind, keeps_rules}
use arishem.Cache.Steps.{
  Which, reads, queue_of, with_queue, with_entry, removed, processed_with, return_up, return_all,
  send_up, prefetch_all, advised, prefetcher_operate, take_answer, take_answers, send_down,
  lower_full, look_up, replacement_update, retire, one_read_less,
}
use arishem.Cache.Steps.Tracked.{
  Tracks, Tracks-IsPreorder, Tracks-same, return_data-Tracks, Notes, add_mshr-Notes, HasRegister,
  Covers,
}

prefetch_line-Tracks :
    (u : Uninit) (clock : Clock) (c : Cache) (a b d m : ℕ) (l : ℤ)
    → Ends
        (λ (r : ℕ × Cache × List Upcall). (r.1.mshr ≡ c.mshr) × (r.1.mshr_size ≡ c.mshr_size))
        (prefetch_line u clock c a b d l m)
unfolding prefetch_line issued add_pq add_pq_new add_pq_forwarded add_pq_merged refused_prefetch
    appended_prefetch
prefetch_line-Tracks u clock c a b d m l = ground arith

pub with_read-Tracks : (c : Cache) (i : ℕ) (p : Packet) → Tracks c (with_entry reads i p c)
unfolding with_entry with_queue queue_of
with_read-Tracks c i p = Tracks-same c _ refl refl

Ends-same :
    {A : Type 0} (c : Cache) (run : Run (Cache × A))
    → Ends (λ r. (r.0.mshr ≡ c.mshr) × (r.0.mshr_size ≡ c.mshr_size)) run
    → Ends (λ (r : Cache × A). Tracks c r.0) run
Ends-same c abort h = tt
Ends-same c (ok r) h = Tracks-same c r.0 h.0 h.1

module _ {E : Type 0} where
  -- An operation that leaves the registers alone.
  apart :
      {A : Type 0} (f : Cache → Run (Cache × A))
      → ((c : Cache)
          → Ends (λ (r : Cache × A). (r.0.mshr ≡ c.mshr) × (r.0.mshr_size ≡ c.mshr_size)) (f c))
      → Keeps {E = E} Tracks (attempt f)
  apart f h = Keeps-attempt f λ c. Ends-same c (f c) (h c)

module _ {E : Type 0} (n : Neighbours E) where
  return_up-Tracks : (cpu : ℕ) (p : Packet) → Keeps Tracks (return_up n cpu p)
  unfolding return_up
  return_up-Tracks cpu p = search (keeps_rules, Tracks-IsPreorder)

  return_all-Tracks : (us : List Upcall) → Keeps Tracks (return_all n us)
  unfolding return_all
  return_all-Tracks [] = search (keeps_rules, Tracks-IsPreorder)
  return_all-Tracks (u ∷ us) =
      Keeps-bind _ _ Tracks-IsPreorder (search (keeps_rules, Tracks-IsPreorder))
        (λ a. return_all-Tracks us)

  pub send_up-Tracks : (which : Which) (k cpu : ℕ) → Keeps Tracks (send_up n which k cpu)
  unfolding send_up
  send_up-Tracks which k cpu = search (keeps_rules, Tracks-IsPreorder, return_up-Tracks)

  prefetch_all-Tracks : (ps : List Prefetch) → Keeps Tracks (prefetch_all n ps)
  unfolding prefetch_all
  prefetch_all-Tracks [] = search (keeps_rules, Tracks-IsPreorder)
  prefetch_all-Tracks (p ∷ ps) =
      let rest = prefetch_all-Tracks ps in
      Keeps-bind _ _ Tracks-IsPreorder
        (apart _ λ c. ground (
          arith,
          prefetch_line-Tracks n.uninit n.clock c p.ip p.base_addr p.pf_addr p.prefetch_metadata
              p.pf_fill_level,
        ))
        (λ calls. Keeps-bind _ _ Tracks-IsPreorder (return_all-Tracks calls) (λ _. rest))

  advised-Tracks : (f : E → Cache → Run (Advice E)) → Keeps Tracks (advised n f)
  unfolding advised
  advised-Tracks f = search (keeps_rules, Tracks-IsPreorder, prefetch_all-Tracks)

  pub prefetcher_operate-Tracks : (a b c d e : ℕ) → Keeps Tracks (prefetcher_operate n a b c d e)
  unfolding prefetcher_operate
  prefetcher_operate-Tracks a b c d e = advised-Tracks _

  pub take_answer-Tracks : (p : Packet) → Keeps Tracks (take_answer n p)
  unfolding take_answer
  take_answer-Tracks p = Keeps-attempt _ (λ c. ground (arith, return_data-Tracks n.clock c p))

  take_answers-Tracks : (ps : List Packet) → Keeps Tracks (take_answers n ps)
  unfolding take_answers
  take_answers-Tracks [] = search (keeps_rules, Tracks-IsPreorder)
  take_answers-Tracks (p ∷ ps) =
      let rest = take_answers-Tracks ps in
      Keeps-bind _ _ Tracks-IsPreorder (take_answer-Tracks p) (λ _. rest)

  pub send_down-Tracks :
      (f : E → Packet → Run (Sent E)) (i : ℕ) → Keeps Tracks (send_down n f reads i)
  unfolding send_down
  send_down-Tracks f i =
      search (keeps_rules, Tracks-IsPreorder, take_answers-Tracks, with_read-Tracks) depth 8

  pub lower_full-Tracks : (k address : ℕ) → Keeps Tracks (lower_full n k address)
  unfolding lower_full
  lower_full-Tracks k address = search (keeps_rules, Tracks-IsPreorder)

  pub look_up-Tracks : (p : Packet) → Keeps Tracks (look_up n p)
  unfolding look_up check_hit
  look_up-Tracks p = apart _ (λ c. ground arith)

  update_replacement_state-Tracks :
      (c : Cache) (index way type hit : ℕ)
      → Tracks c (update_replacement_state c index way type hit)
  unfolding update_replacement_state
  update_replacement_state-Tracks c index way type hit =
      Tracks-same c _ (ground arith) (ground arith)

  pub replacement_update-Tracks :
      (a b c d e f g h : ℕ) → Keeps Tracks (replacement_update n a b c d e f g h)
  unfolding replacement_update
  replacement_update-Tracks a b c d e f g h =
      search (keeps_rules, Tracks-IsPreorder, update_replacement_state-Tracks)

  pub processed_with-Tracks : (p : Packet) → Keeps {E = E} Tracks (attempt (processed_with p))
  unfolding processed_with add_queue
  processed_with-Tracks p = apart _ (λ c. ground arith)

  removed-Tracks : (i : ℕ) → Keeps {E = E} Tracks (attempt (removed n.uninit reads i))
  unfolding removed queue_of with_queue remove_queue
  removed-Tracks i = apart _ (λ c. ground arith)

  one_read_less-Tracks : (c : Cache) → Tracks c (one_read_less c)
  unfolding one_read_less
  one_read_less-Tracks c = Tracks-same c _ refl refl

  pub retire-Tracks : (i : ℕ) → Keeps Tracks (retire n reads i)
  unfolding retire
  retire-Tracks i =
      Keeps-bind _ _ Tracks-IsPreorder (removed-Tracks i) λ _. Keeps-change _ one_read_less-Tracks

pub ruleset tracking = (
  Tracks-IsPreorder, with_read-Tracks, send_up-Tracks, prefetcher_operate-Tracks,
  take_answer-Tracks, send_down-Tracks, lower_full-Tracks, look_up-Tracks,
  replacement_update-Tracks, processed_with-Tracks, retire-Tracks,
)
