-- ===== src/Cache/Handlers/Fill/Sparing.antt =====
-- `handle_fill` spares the waiting reads and the read ports.
use arishem.Base.{ℕ, arith}
use arishem.Cache.State.{Cache}
use arishem.Cache.Mshr.{update_fill_cycle}
use arishem.Cache.World.{Neighbours}
use arishem.Cache.World.Action.{attempt}
use arishem.Cache.World.Keeps.{Keeps, Keeps-attempt, keeps_rules}
use arishem.Cache.Steps.{
  misses, queue_of, with_queue, removed, with_block, count_sim_miss, count_latency,
}
use arishem.Cache.Steps.Spared.{Spares}
use arishem.Cache.Steps.Sparing.{sparing}
use arishem.Cache.Handlers.Fill.{
  one_less_returned, mark_store, free_register, train_on_fill, place, hand_over, fill_way, bypass,
  fill_register, handle_fill,
}

module _ {E : Type 0} (n : Neighbours E) (i : ℕ) where
  removed-Keeps : (k : ℕ) → Keeps {E = E} (Spares i) (attempt (removed n.uninit misses k))
  unfolding removed queue_of with_queue
  removed-Keeps k = Keeps-attempt _ λ c. ground arith

  count_latency-Spares : (c : Cache) (cpu cycle : ℕ) → Spares i c (count_latency n cpu cycle c)
  unfolding count_latency
  count_latency-Spares c cpu cycle = ground arith

  one_less_returned-Spares : (c : Cache) → Spares i c (one_less_returned c)
  unfolding one_less_returned update_fill_cycle
  one_less_returned-Spares c = search

  pub free_register-Keeps : (cpu k : ℕ) → Keeps (Spares i) (free_register n cpu k)
  unfolding free_register
  free_register-Keeps cpu k =
      search (keeps_rules, sparing, removed-Keeps, count_latency-Spares, one_less_returned-Spares)
        depth 10

  train_on_fill-Keeps : (cpu k index way : ℕ) → Keeps (Spares i) (train_on_fill n cpu k index way)
  unfolding train_on_fill
  train_on_fill-Keeps cpu k index way = search (keeps_rules, sparing) depth 12 fits 3000

  mark_store-Spares : (index way type : ℕ) (c : Cache) → Spares i c (mark_store index way type c)
  unfolding mark_store with_block
  mark_store-Spares index way type c = ground arith

  place-Keeps : (cpu k index way : ℕ) → Keeps (Spares i) (place n cpu k index way)
  unfolding place count_sim_miss
  place-Keeps cpu k index way =
      search (keeps_rules, sparing, train_on_fill-Keeps, mark_store-Spares) depth 12

  hand_over-Keeps : (cpu k index way : ℕ) → Keeps (Spares i) (hand_over n cpu k index way)
  unfolding hand_over
  hand_over-Keeps cpu k index way = search (keeps_rules, sparing, free_register-Keeps) depth 12

  fill_way-Keeps : (cpu k index way : ℕ) → Keeps (Spares i) (fill_way n cpu k index way)
  unfolding fill_way
  fill_way-Keeps cpu k index way = search (keeps_rules, sparing, place-Keeps, hand_over-Keeps)

  bypass-Keeps : (cpu k index way : ℕ) → Keeps (Spares i) (bypass n cpu k index way)
  unfolding bypass count_sim_miss
  bypass-Keeps cpu k index way = search (keeps_rules, sparing, free_register-Keeps) depth 10

  fill_register-Keeps : (cpu k : ℕ) → Keeps (Spares i) (fill_register n cpu k)
  unfolding fill_register
  fill_register-Keeps cpu k = search (keeps_rules, sparing, fill_way-Keeps, bypass-Keeps) depth 12

  pub handle_fill-Keeps : Keeps (Spares i) (handle_fill n)
  unfolding handle_fill
  handle_fill-Keeps = search (keeps_rules, sparing, fill_register-Keeps) depth 8
