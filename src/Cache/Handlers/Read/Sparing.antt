-- ===== src/Cache/Handlers/Read/Sparing.antt =====
-- Until it retires a read, `handle_read` changes at most that read in the read queue, and takes no port.
use arishem.Base.{ℕ}
use arishem.Packet.{Packet}
use arishem.Cache.State.{Cache}
use arishem.Cache.World.{Neighbours}
use arishem.Cache.World.Keeps.{Keeps, keeps_rules}
use arishem.Cache.Steps.{with_block}
use arishem.Cache.Steps.Spared.{Spares, with_entry-Spares}
use arishem.Cache.Steps.Sparing.{sparing}
use arishem.Cache.Handlers.Read.{use_block, train_on_read, use_line, walk}

module _ {E : Type 0} (n : Neighbours E) (i : ℕ) where
  pub train_on_read-Keeps :
      (cpu addr hit : ℕ) (p : Packet) → Keeps (Spares i) (train_on_read n cpu addr hit p)
  unfolding train_on_read
  train_on_read-Keeps cpu addr hit p = search (keeps_rules, sparing) depth 12 fits 3000

  pub use_block-Spares : (index way : ℕ) (c : Cache) → Spares i c (use_block index way c)
  unfolding use_block with_block
  use_block-Spares index way c = search

  pub use_line-Keeps : (cpu index way : ℕ) → Keeps (Spares i) (use_line n cpu i index way)
  unfolding use_line
  use_line-Keeps cpu index way =
      search (keeps_rules, sparing, train_on_read-Keeps, with_entry-Spares) depth 14

  pub walk-Keeps : (cpu : ℕ) → Keeps (Spares i) (walk n cpu i)
  unfolding walk
  walk-Keeps cpu = search (keeps_rules, sparing, with_entry-Spares) depth 12
