-- ===== src/Cache/Handlers/Operate/Order.antt =====
-- A cycle of a cache: the reads and prefetches together take no more ports than there are, and only
-- `handle_read` takes reads out of the read queue.
use arishem.Base.{
  ℕ, zero, suc, ◌+◌, ◌≤◌, ◌<◌, ◌^◌, ◌≡◌, refl, ap, ◌∙◌, sym, Bool, true, false, ◌&&◌, not, List, [],
  ◌∷◌, ◌++◌, arith, ltb, ◌==◌, length, set, length-set, Run, ok, abort,
}
use arishem.Packet.{Packet, no_packet}
use arishem.PacketQueue.{PacketQueue}
use arishem.PacketQueue.Refine.{IsValid, contents}
use arishem.Cache.State.{Cache}
use arishem.Cache.World.{Neighbours, World}
use arishem.Cache.World.Action.{Action, gets, ◌>>=◌, when}
use arishem.Cache.World.Keeps.{
  Ends, Ends-given, Keeps, Yields-bind, Yields-gets, Yields-pure, Keeps-change, keeps_rules,
  Relation,
}
use arishem.Cache.Steps.Spared.{vacated, Spares}
use arishem.Cache.Handlers.Fill.{handle_fill}
use arishem.Cache.Handlers.Fill.Sparing.{handle_fill-Keeps}
use arishem.Cache.Handlers.Writeback.{handle_writeback}
use arishem.Cache.Handlers.Writeback.Sparing.{handle_writeback-Keeps}
use arishem.Cache.Handlers.Read.{handle_read}
use arishem.Cache.Handlers.Read.Rounds.{Waits, Waits-IsPreorder}
use arishem.Cache.Handlers.Read.Order.{IsOpen, Serves, handle_read_lem}
use arishem.Cache.Handlers.Prefetch.{handle_prefetch}
use arishem.Cache.Handlers.Prefetch.Ports.{HasPort, Lasts, handle_prefetch-Lasts}
use arishem.Cache.Handlers.Operate.{all_ports, feedback, operate}

set-past : {A : Type 0} (xs : List A) (i : ℕ) (x : A) → length xs ≤ i → set xs i x ≡ xs
set-past [] i x h = refl
set-past (y ∷ xs) zero x h = absurd (omega arith)
set-past (y ∷ xs) (suc i) x h = ap (λ l. y ∷ l) (set-past xs i x (omega arith))

vacated-past : (q : PacketQueue) (i : ℕ) → length q.entry ≤ i → vacated i q ≡ q
unfolding vacated
vacated-past q i h = ap (λ l. record q { entry = l }) (set-past q.entry i no_packet h)

length-vacated : (q : PacketQueue) (i : ℕ) → length (vacated i q).entry ≡ length q.entry
unfolding vacated
length-vacated q i = length-set q.entry i no_packet

-- Queues that agree besides each place are equal.
same_queue : (q q' : PacketQueue) → ((i : ℕ) → vacated i q' ≡ vacated i q) → q' ≡ q
same_queue q q' h =
    let lengths =
      sym (length-vacated q' 0)
      ∙ ap (λ (x : PacketQueue). length x.entry) (h 0)
      ∙ length-vacated q 0 in
    sym (vacated-past q' (length q.entry) (omega (arith, lengths)))
    ∙ h (length q.entry)
    ∙ vacated-past q (length q.entry) (omega arith)

module _ {E : Type 0} where
  Ends-Waits :
      (c : Cache) (run : Run (World E × Unit {0}))
      → ((i : ℕ) → Ends (λ r. Spares i c r.0.cache) run)
      → Ends (λ (r : World E × Unit {0}). Waits c r.0.cache) run
  Ends-Waits c abort h = tt
  Ends-Waits c (ok (w, x)) h = record {
    queue = same_queue c.rq w.cache.rq λ i. (h i).queue;
    ports = (h 0).ports;
    most = (h 0).most;
  }

  spared : (m : Action E (Unit {0})) → ((i : ℕ) → Keeps (Spares i) m) → Keeps Waits m
  spared m h = record { at = λ w. Ends-Waits w.cache (m w) λ i. (h i).at w }

  Ends-weaken :
      (P : Cache → Type 0) (H : Type 0) (run : Run (World E × Unit {0}))
      → (H → Ends (λ r. P r.0.cache) run)
      → Ends (λ (r : World E × Unit {0}). H → P r.0.cache) run
  Ends-weaken P H abort h = tt
  Ends-weaken P H (ok x) h = h

-- What follows on the reads: ports are taken, and the reads wait.
Drops : Relation
Drops c c' =
    c.reads_available_this_cycle < 2 ^ 32
    → (c'.rq ≡ c.rq)
      × (c'.reads_available_this_cycle ≤ c.reads_available_this_cycle)
      × (c'.max_read ≡ c.max_read)

module _ {E : Type 0} where
  Ends-Drops :
      (c : Cache) (run : Run (World E × Unit {0}))
      → 0 < c.reads_available_this_cycle
      → ((i : ℕ) → Ends (λ r. Lasts i c r.0.cache) run)
      → Ends (λ (r : World E × Unit {0}). Drops c r.0.cache) run
  unfolding Drops
  Ends-Drops c abort some_left h = tt
  Ends-Drops c (ok (w, x)) some_left h = λ small.
      let port : HasPort c = (some_left, small) in
      (same_queue c.rq w.cache.rq (λ i. (h i port).queue), (h 0 port).ports, (h 0 port).most)

-- In a cycle the oldest reads are served, at most as many as there are ports; the others wait in
-- their order, and the ports that are left are those that neither they nor the prefetches took.
pub record Cycle (c c' : Cache) : Type 0 where
  pub served : List Packet
  pub in_order : contents c.rq ≡ served ++ contents c'.rq
  pub ports : c'.reads_available_this_cycle + length served ≤ c.max_read
  pub valid : IsValid c'.rq
  pub most : c'.max_read ≡ c.max_read

Serves-Drops :
    (c d c' : Cache)
    → c.reads_available_this_cycle ≡ c.max_read
    → c.max_read < 2 ^ 32
    → Serves c.max_read c d
    → Drops d c'
    → Cycle c c'
unfolding Drops
Serves-Drops c d c' full small s drops =
    let t = drops (omega (arith, s.ports)) in
    record {
      served = s.served;
      in_order = s.in_order ∙ ap (λ q. s.served ++ contents q) (sym t.0);
      ports = omega (arith, s.ports, t.1);
      valid = rw t.0 s.valid;
      most = t.2 ∙ s.most;
    }

Cycle-after : (c d c' : Cache) → Waits c d → Cycle d c' → Cycle c c'
Cycle-after c d c' w y = record {
  served = y.served;
  in_order = ap contents (sym w.queue) ∙ y.in_order;
  ports = omega (arith, y.ports, w.most);
  valid = y.valid;
  most = y.most ∙ w.most;
}

-- A cycle from a well-formed read queue, and its part after the ports are free again.
FromValid : Relation
FromValid c c' = IsValid c.rq → c.max_read < 2 ^ 32 → Cycle c c'

FromOpen : Relation
FromOpen c c' = c.reads_available_this_cycle ≡ c.max_read → FromValid c c'

FromOpen-intro :
    (c d c' : Cache) → (IsOpen c.max_read c → Serves c.max_read c d) → Drops d c' → FromOpen c c'
unfolding FromOpen FromValid
FromOpen-intro c d c' serves drops full v small =
    let open_now : IsOpen c.max_read c = record {
      valid = v;
      enough = omega (arith, full);
      small = omega (arith, full, small);
    } in
    Serves-Drops c d c' full small (serves open_now) drops

FromOpen-all_ports : (c d c' : Cache) → d ≡ all_ports c → FromOpen d c' → FromValid c c'
unfolding FromOpen FromValid all_ports
FromOpen-all_ports c d c' e h v small =
    let y = (rw e at h) refl v small in
    record {
      served = y.served;
      in_order = y.in_order;
      ports = y.ports;
      valid = y.valid;
      most = y.most;
    }

FromValid-after : (c d c' : Cache) → Waits c d → FromValid d c' → FromValid c c'
unfolding FromValid
FromValid-after c d c' w h v small =
    Cycle-after c d c' w (h (rw w.queue v) (omega (arith, w.most, small)))

can_prefetch : Cache → Bool
can_prefetch c = not (c.pq.occupancy == 0) && ltb 0 c.reads_available_this_cycle

can_prefetch-port : (c : Cache) → can_prefetch c ≡ true → 0 < c.reads_available_this_cycle
unfolding can_prefetch
can_prefetch-port c h = ground arith

Drops-same : (c c' : Cache) → Waits c c' → Drops c c'
unfolding Drops
Drops-same c c' w small = (w.queue, omega (arith, w.ports), w.most)

module _ {E : Type 0} (n : Neighbours E) where
  prefetch_if :
      (b : Bool) → Keeps (λ c c'. b ≡ can_prefetch c → Drops c c') (when b (handle_prefetch n))
  prefetch_if false = Yields-pure tt λ c e. Drops-same c c (Waits-IsPreorder.same c)
  prefetch_if true = record {
    at = λ w. Ends-weaken (Drops w.cache) (true ≡ can_prefetch w.cache) (handle_prefetch n w) λ e.
        Ends-Drops w.cache (handle_prefetch n w) (can_prefetch-port w.cache (sym e))
          λ i. (handle_prefetch-Lasts n i).at w;
  }

  feedback-Waits : Keeps Waits (feedback n)
  unfolding feedback
  feedback-Waits = search (keeps_rules, Waits-IsPreorder) depth 8

  -- The prefetches and the feedback.
  after_reads : Keeps Drops (
      gets (λ c. not (c.pq.occupancy == 0) && ltb 0 c.reads_available_this_cycle) >>= λ prefetching.
      when prefetching (handle_prefetch n) >>= λ _. feedback n)
  unfolding can_prefetch Drops
  after_reads =
      Yields-bind {Q = λ prefetching _ c c'. prefetching ≡ can_prefetch c → Drops c c'} _ _
        (Yields-gets _)
        (λ prefetching.
          Yields-bind _ _ (prefetch_if prefetching) (λ _. feedback-Waits)
            λ a b c d c' drops w e small.
              let t = drops e small in (w.queue ∙ t.0, omega (arith, w.ports, t.1), w.most ∙ t.2))
        λ a b c d c' g drops small.
          let same = g.1 in let drops' = rw same at drops in drops' g.0 small

  handle_read-Serves : Keeps (λ c c'. IsOpen c.max_read c → Serves c.max_read c c') (handle_read n)
  handle_read-Serves = record {
    at = λ w.
        Ends-weaken (Serves w.cache.max_read w.cache) (IsOpen w.cache.max_read w.cache)
          (handle_read n w) (handle_read_lem n w);
  }

  -- In every run of operate that ends, from a well-formed read queue, the reads that are served are
  -- the oldest waiting ones; they and what is left of the ports are at most max_read; the other
  -- reads wait in their order, and the queue stays well formed.
  pub operate_lem :
      (w : World E)
      → IsValid w.cache.rq
      → w.cache.max_read < 2 ^ 32
      → Ends (λ (r : World E × Unit {0}). Cycle w.cache r.0.cache) (operate n w)
  unfolding operate FromValid
  operate_lem w v small =
      let fills = spared (handle_fill n) (handle_fill-Keeps n) in
      let writes = spared (handle_writeback n) (handle_writeback-Keeps n) in
      let run =
        Yields-bind {S = λ _. FromValid} _ _ fills
          (λ _.
            Yields-bind {S = λ _. FromValid} _ _ writes
              (λ _.
                Yields-bind {Q = λ _ _. FromOpen} {S = λ _. FromValid} _ _
                  (Keeps-change {R = λ c c'. c' ≡ all_ports c} _ λ c. refl)
                  (λ _.
                    Yields-bind _ _ handle_read-Serves (λ _. after_reads)
                      λ a b c d c' serves drops. FromOpen-intro c d c' serves drops)
                  λ a b c d c' e h. FromOpen-all_ports c d c' e h)
              λ a b c d c' h k. FromValid-after c d c' h k)
          λ a b c d c' h k. FromValid-after c d c' h k in
      Ends-given _ (operate n w) (Ends-given _ (operate n w) (run.at w) v) small
