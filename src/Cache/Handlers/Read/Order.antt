-- ===== src/Cache/Handlers/Read/Order.antt =====
-- `handle_read` serves the waiting reads in their order, each with a port of its own.
use arishem.Base.{
  ℕ, zero, suc, ◌+◌, ◌≤◌, ◌<◌, ◌^◌, ◌≡◌, refl, ap, ◌∙◌, sym, Bool, true, false, not, List, [], ◌∷◌,
  ◌++◌, arith, ◌==◌, length, length-append,
}
use mathlib.Core.List.{append_assoc}
use arishem.Packet.{Packet, Uninit, packet_at}
use arishem.PacketQueue.Refine.{IsValid, contents, remove_entry-IsValid, contents-remove_entry}
use arishem.Cache.State.{Cache}
use arishem.Cache.World.{Neighbours, World}
use arishem.Cache.World.Action.{Action, pure, gets, ◌>>=◌, when}
use arishem.Cache.World.Keeps.{
  Ends, Ends-given, Keeps, Yields-bind, Yields-gets, Yields-mono, Yields-pure,
}
use arishem.Cache.Handlers.Read.{read_due, read_oldest, read_rounds, handle_read}
use arishem.Cache.Handlers.Read.Rounds.{Waits, Retires, Round, waits_on, leaves, read_oldest-Keeps}

-- The read queue is well formed, and there are ports for `left` rounds.
pub record IsOpen (left : ℕ) (c : Cache) : Type 0 where
  pub valid : IsValid c.rq
  pub enough : left ≤ c.reads_available_this_cycle
  pub small : c.reads_available_this_cycle < 2 ^ 32

-- The oldest reads are served, at most `left`, each with a port; the others wait in their order.
pub record Serves (left : ℕ) (c c' : Cache) : Type 0 where
  pub served : List Packet
  pub in_order : contents c.rq ≡ served ++ contents c'.rq
  pub bounded : length served ≤ left
  pub ports : c'.reads_available_this_cycle + length served ≡ c.reads_available_this_cycle
  pub valid : IsValid c'.rq
  pub most : c'.max_read ≡ c.max_read

Serves-none : (left : ℕ) (c c' : Cache) → Waits c c' → IsValid c.rq → Serves left c c'
Serves-none left c c' w v = record {
  served = [];
  in_order = sym (ap contents w.queue);
  bounded = omega arith;
  ports = omega (arith, w.ports);
  valid = rw w.queue v;
  most = w.most;
}

Serves-one :
    (u : Uninit) (left : ℕ) (c c' : Cache)
    → IsOpen (suc left) c
    → 0 < c.rq.occupancy
    → Retires u c.rq.head c c'
    → Serves (suc left) c c'
Serves-one u left c c' o busy r = record {
  served = packet_at c.rq.entry c.rq.head ∷ [];
  in_order = rw r.queue (contents-remove_entry u c.rq o.valid busy);
  bounded = omega arith;
  ports = omega (arith, r.ports, o.enough, o.small);
  valid = rw r.queue (remove_entry-IsValid u c.rq o.valid busy);
  most = r.most;
}

-- At most one is served in a round.
ServesRound : ℕ → Cache → Cache → Type 0
ServesRound left c c' = (s : Serves (suc left) c c') × (length s.served ≤ 1)

Round-ServesRound :
    (u : Uninit) (left : ℕ) (c c' : Cache)
    → IsOpen (suc left) c
    → 0 < c.rq.occupancy
    → Round u c.rq.head c c'
    → ServesRound left c c'
unfolding ServesRound Serves-none Serves-one
Round-ServesRound u left c c' o busy (waits_on w) =
    (Serves-none (suc left) c c' w o.valid, omega arith)
Round-ServesRound u left c c' o busy (leaves r) = (Serves-one u left c c' o busy r, omega arith)

Serves-after :
    (left : ℕ) (c d c' : Cache) → ServesRound left c d → Serves left d c' → Serves (suc left) c c'
unfolding ServesRound
Serves-after left c d c' (s, few) t =
    let counted = length-append s.served t.served in
    record {
      served = s.served ++ t.served;
      in_order =
          s.in_order
          ∙ ap (λ l. s.served ++ l) t.in_order
          ∙ sym (append_assoc s.served t.served (contents c'.rq));
      bounded = omega (arith, counted, few, t.bounded);
      ports = omega (arith, counted, s.ports, t.ports);
      valid = t.valid;
      most = t.most ∙ s.most;
    }

IsOpen-after : (left : ℕ) (c d : Cache) → IsOpen (suc left) c → ServesRound left c d → IsOpen left d
unfolding ServesRound
IsOpen-after left c d o (s, few) = record {
  valid = s.valid;
  enough = omega (arith, o.enough, s.ports, few);
  small = omega (arith, o.small, s.ports);
}

-- From an open queue, the reads are served in order.
Rounds : ℕ → Cache → Cache → Type 0
Rounds left c c' = IsOpen left c → Serves left c c'

-- The rest of the rounds, in the state `a`.
RoundsFrom : Cache → ℕ → Cache → Cache → Type 0
RoundsFrom a left c c' = a ≡ c → Rounds left c c'

due-busy : {E : Type 0} (n : Neighbours E) (c : Cache) → read_due n c ≡ true → 0 < c.rq.occupancy
unfolding read_due
due-busy n c h = ground arith

module _ {E : Type 0} (n : Neighbours E) where
  pause : (left : ℕ) → Keeps {E = E} (Rounds left) (pure tt)
  unfolding Rounds
  pause left =
      Yields-pure tt
        λ c o. Serves-none left c c record { queue = refl; ports = refl; most = refl } o.valid

  rest_or_pause :
      (left : ℕ)
      → Keeps (Rounds left) (read_rounds n left)
      → (b : Bool) → Keeps (Rounds left) (when b (read_rounds n left))
  rest_or_pause left rest true = rest
  rest_or_pause left rest false = pause left

  one_then_rest :
      (left : ℕ) (a : Cache)
      → read_due n a ≡ true
      → Keeps (Rounds left) (read_rounds n left)
      → Keeps (RoundsFrom a (suc left)) (
          read_oldest n (packet_at a.rq.entry a.rq.head).cpu a.rq.head >>= λ _.
          gets (λ c. c.reads_available_this_cycle) >>= λ available.
          when (not (available == 0)) (read_rounds n left))
  unfolding RoundsFrom Rounds
  one_then_rest left a due rest =
      Yields-bind {Q = λ _ _. Rounds left} _ _
        (read_oldest-Keeps n a.rq.head (packet_at a.rq.entry a.rq.head).cpu)
        (λ _.
          Yields-bind {Q = λ _ _. Rounds left} _ _ (Yields-gets _)
            (λ available. rest_or_pause left rest (not (available == 0)))
            λ available b c d c' g r. rw (sym g.1) r)
        λ x b c d c' round r e o.
          let busy = rw e at (due-busy n a due) in
          let round' = rw e at round in
          let s = Round-ServesRound n.uninit left c d o busy round' in
          Serves-after left c d c' s (r (IsOpen-after left c d o s))

  round_or_pause :
      (left : ℕ) (a : Cache) (due : Bool) (m : Action E (Unit {0}))
      → read_due n a ≡ due
      → (read_due n a ≡ true → Keeps (RoundsFrom a (suc left)) m)
      → Keeps (RoundsFrom a (suc left)) (when due m)
  unfolding RoundsFrom Rounds
  round_or_pause left a true m e h = h e
  round_or_pause left a false m e h = Yields-mono _ (pause (suc left)) λ x c c' r same. r

  from_here :
      (left : ℕ) (a c d c' : Cache)
      → (a ≡ c) × (d ≡ c)
      → RoundsFrom a (suc left) d c'
      → Rounds (suc left) c c'
  unfolding RoundsFrom
  from_here left a c d c' g r = let same = g.1 in let first = r (g.0 ∙ sym g.1) in rw same at first

  read_rounds-Serves : (left : ℕ) → Keeps (Rounds left) (read_rounds n left)
  unfolding read_rounds
  read_rounds-Serves zero = pause zero
  read_rounds-Serves (suc left) =
      let rest = read_rounds-Serves left in
      Yields-bind {Q = λ a _. RoundsFrom a (suc left)} _ _ (Yields-gets _)
        (λ a. round_or_pause left a (read_due n a) _ refl λ due. one_then_rest left a due rest)
        λ a b c d c' g r. from_here left a c d c' g r

  -- In every run of handle_read that ends, from a well-formed read queue and with a port for each
  -- round, the reads that are served are the oldest waiting ones, at most max_read of them, each of
  -- them takes a port, the others wait in their order, and the queue stays well formed.
  pub handle_read_lem :
      (w : World E)
      → IsOpen w.cache.max_read w.cache
      → Ends
          (λ (r : World E × Unit {0}). Serves w.cache.max_read w.cache r.0.cache)
          (handle_read n w)
  unfolding handle_read Rounds
  handle_read_lem w o =
      let run =
        Yields-bind {S = λ _ c c'. IsOpen c.max_read c → Serves c.max_read c c'} _ _ (Yields-gets _)
          (λ left. read_rounds-Serves left)
          (λ left b c d c' g r o'.
            let same = g.1 in
            let most = g.0 in let r' = rw same at r in let r'' = rw most at r' in r'' o') in
      Ends-given _ (handle_read n w) (run.at w) o
