-- ===== src/Cache/Handlers/Writeback/Sparing.antt =====
-- `handle_writeback` spares the waiting reads and the read ports.
use arishem.Base.{ℕ, Option, none, some, arith}
use arishem.Packet.{Packet}
use arishem.Cache.World.{Neighbours}
use arishem.Cache.World.Action.{attempt}
use arishem.Cache.World.Keeps.{Keeps, Keeps-attempt, keeps_rules}
use arishem.Cache.Steps.{
  writes, queue_of, with_queue, removed, with_block, count_sim_hit, count_sim_miss, count_hit,
  count_miss, count_stall,
}
use arishem.Cache.Steps.Spared.{Spares}
use arishem.Cache.Steps.Sparing.{sparing}
use arishem.Cache.Handlers.Writeback.{
  mark_dirty, write_hit, write_miss_new, write_miss_old, store_miss, train_on_write, place_write,
  write_way, write_fill, write_oldest, handle_writeback,
}

module _ {E : Type 0} (n : Neighbours E) (i : ℕ) where
  removed-Keeps : (k : ℕ) → Keeps {E = E} (Spares i) (attempt (removed n.uninit writes k))
  unfolding removed queue_of with_queue
  removed-Keeps k = Keeps-attempt _ λ c. ground arith

  write_hit-Keeps : (cpu k index way : ℕ) → Keeps (Spares i) (write_hit n cpu k index way)
  unfolding write_hit count_sim_hit count_hit mark_dirty with_block
  write_hit-Keeps cpu k index way = search (keeps_rules, sparing, removed-Keeps) depth 12

  write_miss_new-Keeps : (k : ℕ) (p : Packet) → Keeps (Spares i) (write_miss_new n k p)
  unfolding write_miss_new
  write_miss_new-Keeps k p = search (keeps_rules, sparing) depth 12

  write_miss_old-Keeps : (p : Packet) (o : Option ℕ) → Keeps (Spares i) (write_miss_old n p o)
  unfolding write_miss_old count_stall
  write_miss_old-Keeps p none = search (keeps_rules, sparing) depth 12
  write_miss_old-Keeps p (some k) = search (keeps_rules, sparing) depth 12

  store_miss-Keeps : (k : ℕ) → Keeps (Spares i) (store_miss n k)
  unfolding store_miss count_miss
  store_miss-Keeps k =
      search (keeps_rules, sparing, removed-Keeps, write_miss_new-Keeps, write_miss_old-Keeps) depth
        12

  train_on_write-Keeps : (cpu k index way : ℕ) → Keeps (Spares i) (train_on_write n cpu k index way)
  unfolding train_on_write
  train_on_write-Keeps cpu k index way = search (keeps_rules, sparing) depth 12 fits 3000

  place_write-Keeps : (cpu k index way : ℕ) → Keeps (Spares i) (place_write n cpu k index way)
  unfolding place_write count_sim_miss mark_dirty with_block
  place_write-Keeps cpu k index way = search (keeps_rules, sparing, train_on_write-Keeps) depth 12

  write_way-Keeps : (cpu k index way : ℕ) → Keeps (Spares i) (write_way n cpu k index way)
  unfolding write_way count_miss
  write_way-Keeps cpu k index way =
      search (keeps_rules, sparing, removed-Keeps, place_write-Keeps) depth 12

  write_fill-Keeps : (cpu k : ℕ) → Keeps (Spares i) (write_fill n cpu k)
  unfolding write_fill
  write_fill-Keeps cpu k = search (keeps_rules, sparing, write_way-Keeps) depth 12

  write_oldest-Keeps : (cpu k : ℕ) → Keeps (Spares i) (write_oldest n cpu k)
  unfolding write_oldest
  write_oldest-Keeps cpu k =
      search (keeps_rules, sparing, write_hit-Keeps, store_miss-Keeps, write_fill-Keeps) depth 12

  pub handle_writeback-Keeps : Keeps (Spares i) (handle_writeback n)
  unfolding handle_writeback
  handle_writeback-Keeps = search (keeps_rules, sparing, write_oldest-Keeps) depth 12
