-- ===== src/Tests/Cycles.antt =====
-- Cycles of a cache with a lower level that notes the lines that it is asked for.
use arishem.Base.{ℕ, refl, arith, List, [], ◌∷◌, Run, ok, abort, true, inr, get_or-replicate, ap}
use arishem.Packet.{Packet, new_packet}
use arishem.PacketQueue.{PacketQueue, new_queue}
use arishem.PacketQueue.Refine.{IsValid}
use arishem.Cache.World.{Neighbours, World, Advice, Sent}
use arishem.Cache.World.Keeps.{Ends}
use arishem.Cache.Handlers.Read.{handle_read, read_oldest}
use arishem.Cache.Handlers.Read.Rounds.{Retires}
use arishem.Cache.Handlers.Read.Fate.{Fate, read_oldest_lem}
use arishem.Cache.Handlers.Read.Progress.{read_oldest-Retires}
use arishem.Cache.Mshr.Registers.{IsTracked, count_used}
use arishem.Cache.Handlers.Read.Order.{IsOpen, Serves, handle_read_lem}
use arishem.Cache.Handlers.Operate.{operate}
use arishem.Cache.Handlers.Operate.Order.{Cycle, operate_lem}
use arishem.Tests.Data.{uninit, load_of, clock, l2c, real_cache}

-- The lines asked for, the last first.
abbrev Asked : Type 0
Asked = List ℕ

abbrev noted : Asked → Packet → Run (Sent Asked)
noted e p = ok record { outside = p.address ∷ e; packet = p; answers = [] }

abbrev silent : Asked → Run (Advice Asked)
silent e = ok record { outside = e; metadata = 0; prefetches = [] }

abbrev memory : Neighbours Asked
memory = record {
  uninit = uninit;
  clock = clock;
  knobs = real_cache;
  warmup_complete = λ cpu. true;
  has_lower = true;
  get_occupancy = λ e queue_type address. 0;
  get_size = λ e queue_type address. 4;
  increment_wq_full = λ e address. e;
  add_rq = noted;
  add_wq = noted;
  add_pq = noted;
  return_data = λ e u. ok e;
  prefetcher_operate = λ e c addr ip cache_hit type metadata. silent e;
  prefetcher_cache_fill = λ e c addr index way prefetched evicted_addr metadata. silent e;
  prefetcher_prefetch_hit = λ e c addr ip metadata. silent e;
  llc_find_victim = λ e c cpu index p. ok (e, 0);
  llc_update_replacement_state = λ e cpu index way full_addr ip victim_addr type hit. ok e;
  va_to_pa = λ e cpu instr_id va vpage. ok (e, va);
  handle_prefetch_feedback = λ e useful filled. (e, useful, filled);
}

-- Two loads wait.
abbrev two_loads : PacketQueue
two_loads = record (new_queue uninit "L2C_RQ" 2) {
  entry = load_of 3 ∷ load_of 4 ∷ [];
  occupancy = 2;
}

abbrev busy : World Asked
busy = record { cache = record l2c { rq = two_loads }; outside = [] }

two_loads-IsValid : IsValid two_loads
unfolding new_queue
two_loads-IsValid = record {
  places = refl;
  size_pos = omega arith;
  size_small = omega arith;
  head_in = omega arith;
  tail_in = omega arith;
  within = omega arith;
  tail_at = refl;
}

busy-IsOpen : IsOpen 2 busy.cache
busy-IsOpen = record { valid = two_loads-IsValid; enough = omega arith; small = omega arith }

handle_read_lem_example :
    Ends (λ (r : World Asked × Unit {0}). Serves 2 busy.cache r.0.cache) (handle_read memory busy)
handle_read_lem_example = handle_read_lem memory busy busy-IsOpen

operate_lem_example :
    Ends (λ (r : World Asked × Unit {0}). Cycle busy.cache r.0.cache) (operate memory busy)
operate_lem_example = operate_lem memory busy two_loads-IsValid (omega arith)

-- Both loads miss: both lines are asked for below, and none waits any more.
abbrev asked_by : Run (World Asked × Unit {0}) → Asked × ℕ × ℕ
asked_by (ok (w, x)) = (w.outside, w.cache.rq.occupancy, w.cache.mshr.occupancy)
asked_by abort = ([], 9, 9)

abbrev cycle_of_busy : Asked × ℕ × ℕ
cycle_of_busy = asked_by (operate memory busy)

busy-IsTracked : IsTracked busy.cache
unfolding new_queue count_used
busy-IsTracked = record {
  places = refl;
  same_size = refl;
  small = omega arith;
  counted = refl;
  unique = λ i j hi hj used same.
      absurd (used (ap (λ (x : Packet). x.address) (get_or-replicate 2 i (new_packet uninit))));
}

read_oldest_lem_example :
    Ends
      (λ (r : World Asked × Unit {0}). Fate real_cache (load_of 3) busy.cache r.0.cache)
      (read_oldest memory 0 0 busy)
read_oldest_lem_example =
    read_oldest_lem memory 0 0 busy (λ e. absurd (omega (arith, e))) busy-IsTracked

read_oldest-Retires_example :
    Ends
      (λ (r : World Asked × Unit {0}). Retires uninit 0 busy.cache r.0.cache)
      (read_oldest memory 0 0 busy)
unfolding new_queue
read_oldest-Retires_example = read_oldest-Retires memory 0 0 busy refl (inr (inr (omega arith)))
