-- ===== src/Cache/Handlers/Prefetch/Ports.antt =====
-- `handle_prefetch` spares the waiting reads, and takes at most the ports that the reads have left.
use arishem.Base.{ℕ, ◌≡◌, refl, Bool, true, false, not, ◌==◌, arith}
use arishem.Cache.State.{Cache}
use arishem.Cache.World.{Neighbours}
use arishem.Cache.World.Action.{Action, gets, attempt, ◌>>=◌, when}
use arishem.Cache.World.Keeps.{Keeps, Keeps-attempt, Keeps-change, Keeps-if}
use arishem.Cache.Steps.{prefetches, queue_of, with_queue, removed, count_hit, count_miss}
use arishem.Cache.Steps.Spared.{Spares, Spares-IsPreorder}
use arishem.Cache.Steps.Sparing.{sparing}
use arishem.Base.{zero, suc, ◌≤◌, ◌<◌, ◌^◌, ap, ◌∙◌, dec32, ◌⊎◌, inl, inr}
use arishem.Cache.World.Keeps.{
  Keeps-gets, Keeps-found_or, Yields-bind, Yields-mono, Yields-pure, Yields-gets, Relation,
}
use arishem.Cache.Steps.{retire, one_read_less}
use arishem.Cache.Steps.Spared.{vacated}
use arishem.Cache.World.Action.{Action}
use arishem.Cache.Handlers.Prefetch.{
  prefetch_hit, prefetch_miss, prefetch_oldest, prefetch_due, prefetch_rounds, handle_prefetch,
}
use arishem.Cache.Handlers.Prefetch.Sparing.{
  learn_of_hit-Keeps, prefetch_miss_new-Keeps, prefetch_miss_old-Keeps,
}

-- Besides the place `i` the read queue is as it was, and at most one port is taken.
record Takes (i : ℕ) (c c' : Cache) : Type 0 where
  queue : vacated i c'.rq ≡ vacated i c.rq
  ports :
      (c'.reads_available_this_cycle ≡ c.reads_available_this_cycle)
      ⊎ (c'.reads_available_this_cycle ≡ dec32 c.reads_available_this_cycle)
  most : c'.max_read ≡ c.max_read

Spares→Takes : (i : ℕ) (c c' : Cache) → Spares i c c' → Takes i c c'
Spares→Takes i c c' s = record { queue = s.queue; ports = inl s.ports; most = s.most }

Takes-ports : (a b d : ℕ) → b ≡ a → (d ≡ b) ⊎ (d ≡ dec32 b) → (d ≡ a) ⊎ (d ≡ dec32 a)
Takes-ports a b d e (inl h) = inl (h ∙ e)
Takes-ports a b d e (inr h) = inr (h ∙ ap dec32 e)

-- No more ports are taken than there are.
pub record Within (i : ℕ) (c c' : Cache) : Type 0 where
  pub queue : vacated i c'.rq ≡ vacated i c.rq
  pub ports : c'.reads_available_this_cycle ≤ c.reads_available_this_cycle
  pub most : c'.max_read ≡ c.max_read

abbrev pub HasPort : Cache → Type 0
HasPort c = (0 < c.reads_available_this_cycle) × (c.reads_available_this_cycle < 2 ^ 32)

abbrev pub Lasts : ℕ → Relation
Lasts i c c' = HasPort c → Within i c c'

Within-same : (i : ℕ) (c : Cache) → Within i c c
Within-same i c = record { queue = refl; ports = omega arith; most = refl }

-- The same for a cache whose ports are few enough for a word, and of which `available` are left.
Small : ℕ → Relation
Small i c c' = c.reads_available_this_cycle < 2 ^ 32 → Within i c c'

LastsAt : ℕ → ℕ → Relation
LastsAt i available c c' = available ≡ c.reads_available_this_cycle → Small i c c'

Takes→Within : (i : ℕ) (c c' : Cache) → Takes i c c' → HasPort c → Within i c c'
Takes→Within i c c' t p = record {
  queue = t.queue;
  ports = ground (arith, t.ports, p);
  most = t.most;
}

Within-after : (i : ℕ) (c d c' : Cache) → Within i c d → Within i d c' → Within i c c'
Within-after i c d c' s t = record {
  queue = t.queue ∙ s.queue;
  ports = omega (arith, s.ports, t.ports);
  most = t.most ∙ s.most;
}

small_after :
    (c d : Cache) → {i : ℕ} → Within i c d → HasPort c → d.reads_available_this_cycle < 2 ^ 32
small_after c d s port = omega (arith, s.ports, port)

module _ {E : Type 0} (n : Neighbours E) (i : ℕ) where
  spare_then_take :
      {A : Type 0} (m : Action E A) (f : A → Action E (Unit {0}))
      → Keeps (Spares i) m
      → ((a : A) → Keeps (Takes i) (f a))
      → Keeps (Takes i) (m >>= f)
  spare_then_take m f hm hf = Yields-bind m f hm hf λ a b c d c' s t. record {
    queue = t.queue ∙ s.queue;
    ports = Takes-ports _ _ _ s.ports t.ports;
    most = t.most ∙ s.most;
  }

  removed-Keeps : (k : ℕ) → Keeps {E = E} (Spares i) (attempt (removed n.uninit prefetches k))
  unfolding removed queue_of with_queue
  removed-Keeps k = Keeps-attempt _ λ c. ground arith

  one_read_less-Takes : (c : Cache) → Takes i c (one_read_less c)
  unfolding one_read_less
  one_read_less-Takes c = record { queue = refl; ports = inr refl; most = refl }

  retire-Takes : (k : ℕ) → Keeps {E = E} (Takes i) (retire n prefetches k)
  unfolding retire
  retire-Takes k = spare_then_take _ _ (removed-Keeps k) λ _. Keeps-change _ one_read_less-Takes

  take_or_pause :
      (b : Bool) (m : Action E (Unit {0})) → Keeps (Takes i) m → Keeps (Takes i) (when b m)
  take_or_pause true m h = h
  take_or_pause false m h = Yields-pure tt λ c. Spares→Takes i c c ((Spares-IsPreorder i).same c)

  prefetch_hit-Takes : (cpu k index way : ℕ) → Keeps (Takes i) (prefetch_hit n cpu k index way)
  unfolding prefetch_hit count_hit
  prefetch_hit-Takes cpu k index way =
      search (spare_then_take, retire-Takes, Keeps-gets, Keeps-change, sparing, learn_of_hit-Keeps)
        depth 8

  prefetch_miss-Takes : (cpu k : ℕ) → Keeps (Takes i) (prefetch_miss n cpu k)
  unfolding prefetch_miss count_miss
  prefetch_miss-Takes cpu k =
      search
        (
          spare_then_take, retire-Takes, take_or_pause, Keeps-gets, Keeps-change, Keeps-if, sparing,
          prefetch_miss_new-Keeps, prefetch_miss_old-Keeps,
        )
        depth 12

  prefetch_oldest-Takes : (cpu k : ℕ) → Keeps (Takes i) (prefetch_oldest n cpu k)
  unfolding prefetch_oldest
  prefetch_oldest-Takes cpu k =
      search
        (
          spare_then_take, Keeps-gets, Keeps-found_or, sparing, prefetch_hit-Takes,
          prefetch_miss-Takes,
        )
        depth 12

  -- What a round does to a cache whose ports are counted by `available`.
  rest_or_pause :
      (available : ℕ) (b : Bool) (left : ℕ)
      → not (available == 0) ≡ b
      → Keeps (Lasts i) (prefetch_rounds n left)
      → Keeps (LastsAt i available) (when b (prefetch_rounds n left))
  unfolding LastsAt Small
  rest_or_pause available false left e rest = Yields-pure tt λ c same small. Within-same i c
  rest_or_pause available true left e rest =
      Yields-mono _ rest λ a c c' r same small. r (ground (arith, e, same), small)

  LastsAt-here :
      (available : ℕ) (c d c' : Cache)
      → (available ≡ c.reads_available_this_cycle) × (d ≡ c)
      → LastsAt i available d c'
      → Small i c c'
  unfolding LastsAt Small
  LastsAt-here available c d c' g r = let r' = rw g.1 at r in r' g.0

  one_then_rest :
      (left cpu k : ℕ)
      → Keeps (Lasts i) (prefetch_rounds n left)
      → Keeps (Lasts i) (
          prefetch_oldest n cpu k >>= λ _. gets (λ c. c.reads_available_this_cycle) >>= λ available.
          when (not (available == 0)) (prefetch_rounds n left))
  unfolding Small
  one_then_rest left cpu k rest =
      Yields-bind {Q = λ _ _. Small i} _ _ (prefetch_oldest-Takes cpu k)
        (λ _.
          Yields-bind {Q = λ available _. LastsAt i available} _ _ (Yields-gets _)
            (λ available. rest_or_pause available (not (available == 0)) left refl rest)
            λ available b c d c' g r. LastsAt-here available c d c' g r)
        λ x b c d c' t r port.
          let first = Takes→Within i c d t port in
          Within-after i c d c' first (r (small_after c d first port))

  round_or_pause :
      (b : Bool) (m : Action E (Unit {0})) → Keeps (Lasts i) m → Keeps (Lasts i) (when b m)
  round_or_pause true m h = h
  round_or_pause false m h = Yields-pure tt λ c port. Within-same i c

  Lasts-gets :
      {A : Type 0} (f : Cache → A) (m : A → Action E (Unit {0}))
      → ((a : A) → Keeps (Lasts i) (m a))
      → Keeps (Lasts i) (gets f >>= m)
  Lasts-gets f m h =
      Yields-bind _ _ (Yields-gets f) h λ a b c d c' g r. let same = g.1 in rw same at r

  prefetch_rounds-Lasts : (left : ℕ) → Keeps (Lasts i) (prefetch_rounds n left)
  unfolding prefetch_rounds
  prefetch_rounds-Lasts zero = Yields-pure tt λ c port. Within-same i c
  prefetch_rounds-Lasts (suc left) =
      let rest = prefetch_rounds-Lasts left in
      Lasts-gets _ _ λ a. round_or_pause (prefetch_due n a) _ (one_then_rest left _ _ rest)

  pub handle_prefetch-Lasts : Keeps (Lasts i) (handle_prefetch n)
  unfolding handle_prefetch
  handle_prefetch-Lasts = Lasts-gets _ _ prefetch_rounds-Lasts
