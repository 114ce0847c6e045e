-- ===== src/Cache/Handlers/Prefetch/Sparing.antt =====
-- `handle_prefetch` spares the waiting reads, and takes ports only from those that are left.
use arishem.Base.{ℕ, Option, none, some}
use arishem.Packet.{Packet}
use arishem.Cache.State.{Cache}
use arishem.Cache.World.{Neighbours}
use arishem.Cache.World.Keeps.{Keeps, keeps_rules}
use arishem.Cache.Steps.{count_sim_hit, count_stall}
use arishem.Cache.Steps.Spared.{Spares, prefetches-Spares}
use arishem.Cache.Steps.Sparing.{sparing}
use arishem.Cache.Handlers.Prefetch.{
  with_metadata, train_on_prefetch, learn_of_hit, prefetch_miss_new, prefetch_miss_old,
}

module _ {E : Type 0} (n : Neighbours E) (i : ℕ) where
  with_metadata-Spares : (k metadata : ℕ) (c : Cache) → Spares i c (with_metadata k metadata c)
  unfolding with_metadata
  with_metadata-Spares k metadata c = prefetches-Spares i c k _

  pub train_on_prefetch-Keeps :
      (cpu k addr hit : ℕ) → Keeps (Spares i) (train_on_prefetch n cpu k addr hit)
  unfolding train_on_prefetch
  train_on_prefetch-Keeps cpu k addr hit =
      search (keeps_rules, sparing, with_metadata-Spares) depth 14 fits 3000

  pub learn_of_hit-Keeps : (cpu k index way : ℕ) → Keeps (Spares i) (learn_of_hit n cpu k index way)
  unfolding learn_of_hit count_sim_hit
  learn_of_hit-Keeps cpu k index way =
      search (keeps_rules, sparing, train_on_prefetch-Keeps) depth 14

  pub prefetch_miss_new-Keeps :
      (cpu k : ℕ) (p : Packet) → Keeps (Spares i) (prefetch_miss_new n cpu k p)
  unfolding prefetch_miss_new
  prefetch_miss_new-Keeps cpu k p =
      search (keeps_rules, sparing, train_on_prefetch-Keeps) depth 14 fits 3000

  pub prefetch_miss_old-Keeps :
      (p : Packet) (o : Option ℕ) → Keeps (Spares i) (prefetch_miss_old n p o)
  unfolding prefetch_miss_old count_stall
  prefetch_miss_old-Keeps p none = search (keeps_rules, sparing) depth 12
  prefetch_miss_old-Keeps p (some k) = search (keeps_rules, sparing) depth 12
