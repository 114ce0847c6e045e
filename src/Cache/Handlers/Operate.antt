-- ===== src/Cache/Handlers/Operate.antt =====
-- `operate` of src/cache.cc: what a cache does in a cycle.
pub mod Order
use arishem.Base.{if◌then◌else◌, ℕ, Bool, ◌&&◌, not, Run, ok, abort, ltb, ◌==◌}
use arishem.Cache.State.{Cache}
use arishem.Cache.World.{Neighbours, World}
use arishem.Cache.World.Action.{found_or, is_missing, Action, gets, call, change, ◌>>=◌, ◌>>◌, when}
use arishem.Cache.Handlers.Fill.{handle_fill}
use arishem.Cache.Handlers.Writeback.{handle_writeback}
use arishem.Cache.Handlers.Read.{handle_read}
use arishem.Cache.Handlers.Prefetch.{handle_prefetch}

-- `reads_available_this_cycle = MAX_READ`
unfoldable pub all_ports : Cache → Cache
all_ports c = record c { reads_available_this_cycle = c.max_read }

module _ {E : Type 0} (n : Neighbours E) where
  -- `handle_prefetch_feedback()`: the counts of the epoch, as the broadcast leaves them.
  unfoldable pub feedback : Action E (Unit {0})
  feedback = do
    (useful, filled) ← call (λ e c.
        let (e', useful, filled) =
          n.handle_prefetch_feedback e c.pf_useful_epoch c.pf_filled_epoch in
        ok (e', (useful, filled)))
    change (λ c. record c { pf_useful_epoch = useful; pf_filled_epoch = filled })

  unfoldable pub operate : Action E (Unit {0})
  operate = do
    handle_fill n
    handle_writeback n
    change all_ports
    handle_read n
    prefetching ← gets (λ c. not (c.pq.occupancy == 0) && ltb 0 c.reads_available_this_cycle)
    when prefetching (handle_prefetch n)
    feedback
