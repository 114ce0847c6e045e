-- ===== src/Cache/Handlers/Read/Rounds.antt =====
-- A round of `handle_read`: the oldest read waits on as it is, or it is served and leaves the queue.
use arishem.Base.{ℕ, ◌≡◌, refl, Bool, true, false, ◌&&◌, Option, none, some, if◌then◌else◌, arith}
use arishem.Packet.{Packet}
use arishem.Cache.State.{Cache}
use arishem.Cache.Lookup.{check_hit}
use arishem.Cache.World.{Neighbours}
use arishem.Cache.World.Action.{Action, pure, gets, change, ◌>>=◌, ◌>>◌, when}
use arishem.Cache.World.Keeps.{
  IsPreorder, Ends, Keeps, Keeps-gets, Keeps-attempt, Keeps-change, keeps_rules,
}
use arishem.Cache.Steps.{
  reads, queue_of, with_queue, entry_of, removed, count_sim_hit, count_hit, count_miss, count_stall,
}
use arishem.Cache.Steps.Spared.{Spares, Spares-IsPreorder, with_entry-Spares}
use arishem.Cache.Steps.Sparing.{sparing}
use arishem.Base.{◌∙◌, ap, dec32, sym}
use arishem.Packet.{Uninit, new_packet, no_packet}
use arishem.PacketQueue.{PacketQueue, remove_queue, remove_entry}
use arishem.Cache.World.Action.{is_missing, Action}
use arishem.Cache.World.Keeps.{
  Yields, Yields-bind, Yields-mono, Yields-if, Yields-pure, Keeps-found_or, Relation,
}
use arishem.Cache.Handlers.Fill.{shifted}
use arishem.Cache.Steps.{look_up, retire, one_read_less, lower_full}
use arishem.Cache.Steps.Spared.{vacated, set-set}
use arishem.Cache.Handlers.Read.{
  ask_for_line, read_hit, read_miss_new, read_miss_old, read_miss, read_oldest, train_on_read,
}
use arishem.Cache.Handlers.Read.Sparing.{
  train_on_read-Keeps, use_block-Spares, use_line-Keeps, walk-Keeps,
}

-- The read queue and the ports are as they were.
pub record Waits (c c' : Cache) : Type 0 where
  pub queue : c'.rq ≡ c.rq
  pub ports : c'.reads_available_this_cycle ≡ c.reads_available_this_cycle
  pub most : c'.max_read ≡ c.max_read

-- The read at the place `i` has left the queue, and has taken a port.
pub record Retires (u : Uninit) (i : ℕ) (c c' : Cache) : Type 0 where
  pub queue : c'.rq ≡ remove_entry u c.rq i
  pub ports : c'.reads_available_this_cycle ≡ dec32 c.reads_available_this_cycle
  pub most : c'.max_read ≡ c.max_read

pub Waits-IsPreorder : IsPreorder Waits
Waits-IsPreorder = record {
  same = λ c. record { queue = refl; ports = refl; most = refl };
  after = λ c c' c'' h k. record {
    queue = k.queue ∙ h.queue;
    ports = k.ports ∙ h.ports;
    most = k.most ∙ h.most;
  };
}

-- What is removed does not depend on what stood at the place.
remove_entry-vacated :
    (u : Uninit) (q : PacketQueue) (i : ℕ) → remove_entry u (vacated i q) i ≡ remove_entry u q i
unfolding remove_entry vacated
remove_entry-vacated u q i =
    ap (λ l. record (remove_entry u q i) { entry = l }) (set-set q.entry i no_packet (new_packet u))

pub Retires-after :
    (u : Uninit) (i : ℕ) (c d c' : Cache) → Spares i c d → Retires u i d c' → Retires u i c c'
Retires-after u i c d c' s r = record {
  queue =
      r.queue
      ∙ sym (remove_entry-vacated u d.rq i)
      ∙ ap (λ q. remove_entry u q i) s.queue
      ∙ remove_entry-vacated u c.rq i;
  ports = r.ports ∙ ap dec32 s.ports;
  most = r.most ∙ s.most;
}

-- What a miss does to the queue, before a handled one is retired.
pub AfterMiss : ℕ → Bool → Relation
AfterMiss i true = Spares i
AfterMiss i false = Waits

pub data Round (u : Uninit) (i : ℕ) (c c' : Cache) : Type 0 where
  waits_on : Waits c c' → Round u i c c'
  leaves : Retires u i c c' → Round u i c c'

Removes : Uninit → ℕ → Relation
Removes u i c c' =
    (c'.rq ≡ remove_entry u c.rq i)
    × (c'.reads_available_this_cycle ≡ c.reads_available_this_cycle)
    × (c'.max_read ≡ c.max_read)

removed-Removes :
    (u : Uninit) (i : ℕ) (c : Cache)
    → Ends (λ (r : Cache × Unit {0}). Removes u i c r.0) (removed u reads i c)
unfolding removed queue_of with_queue remove_queue Removes
removed-Removes u i c = ground arith

pub Waits→Spares : (i : ℕ) (c c' : Cache) → Waits c c' → Spares i c c'
Waits→Spares i c c' w = record { queue = ap (vacated i) w.queue; ports = w.ports; most = w.most }

Spares→AfterMiss : (i : ℕ) (b : Bool) (c c' : Cache) → b ≡ true → Spares i c c' → AfterMiss i b c c'
unfolding AfterMiss
Spares→AfterMiss i true c c' e w = w
Spares→AfterMiss i false c c' e w = absurd (ground arith)

AfterMiss-after :
    (i : ℕ) (b : Bool) (c d c' : Cache) → Waits c d → AfterMiss i b d c' → AfterMiss i b c c'
unfolding AfterMiss
AfterMiss-after i true c d c' w h = (Spares-IsPreorder i).after c d c' (Waits→Spares i c d w) h
AfterMiss-after i false c d c' w h = Waits-IsPreorder.after c d c' w h

-- A miss that is handled.
unfoldable pub Handled : ℕ → Bool → Relation
Handled i b c c' = (b ≡ true) × Spares i c c'

-- What follows on a miss.
Settles : Uninit → ℕ → Bool → Relation
Settles u i true c c' = Retires u i c c'
Settles u i false c c' = c' ≡ c

Round-settled :
    (u : Uninit) (i : ℕ) (handled : Bool) (c d c' : Cache)
    → AfterMiss i handled c d
    → Settles u i handled d c'
    → Round u i c c'
unfolding AfterMiss Settles
Round-settled u i true c d c' h s = leaves (Retires-after u i c d c' h s)
Round-settled u i false c d c' h s = waits_on (rw s h)

Round-after : (u : Uninit) (i : ℕ) (c d c' : Cache) → Waits c d → Round u i d c' → Round u i c c'
Round-after u i c d c' w (waits_on w') = waits_on (Waits-IsPreorder.after c d c' w w')
Round-after u i c d c' w (leaves r) = leaves (Retires-after u i c d c' (Waits→Spares i c d w) r)

pub AfterMiss-leaves :
    (u : Uninit) (i : ℕ) (b : Bool) (c d c' : Cache)
    → AfterMiss i b c d
    → b ≡ true
    → Retires u i d c'
    → Retires u i c c'
unfolding AfterMiss
AfterMiss-leaves u i true c d c' h e r = Retires-after u i c d c' h r
AfterMiss-leaves u i false c d c' h e r = absurd (ground arith)

pub AfterMiss-waits :
    (i : ℕ) (b : Bool) (c c' : Cache) → AfterMiss i b c c' → b ≡ false → c'.rq ≡ c.rq
unfolding AfterMiss
AfterMiss-waits i true c c' h e = absurd (ground arith)
AfterMiss-waits i false c c' h e = h.queue

module _ {E : Type 0} (n : Neighbours E) (i : ℕ) where
  retire-Keeps : Keeps {E = E} (Retires n.uninit i) (retire n reads i)
  unfolding retire Removes one_read_less
  retire-Keeps =
      Yields-bind {P = λ _. Removes n.uninit i} {Q = λ _ _ d c'. c' ≡ one_read_less d} _ _
        (Keeps-attempt _ (removed-Removes n.uninit i)) (λ _. Keeps-change _ λ c. refl)
        λ a b c d c' r e. record {
          queue = ap (λ (x : Cache). x.rq) e ∙ r.0;
          ports = ap (λ (x : Cache). x.reads_available_this_cycle) e ∙ ap dec32 r.1;
          most = ap (λ (x : Cache). x.max_read) e ∙ r.2;
        }

  -- What spares the queue, and then retires the read.
  spare_then_retire :
      {A : Type 0} (m : Action E A) (f : A → Action E (Unit {0}))
      → Keeps (Spares i) m
      → ((a : A) → Keeps (Retires n.uninit i) (f a))
      → Keeps (Retires n.uninit i) (m >>= f)
  spare_then_retire m f hm hf =
      Yields-bind m f hm hf λ a b c d c' s r. Retires-after n.uninit i c d c' s r

  pub read_hit-Keeps : (cpu index way : ℕ) → Keeps (Retires n.uninit i) (read_hit n cpu i index way)
  unfolding read_hit count_sim_hit count_hit
  read_hit-Keeps cpu index way =
      search
        (
          spare_then_retire, retire-Keeps, Keeps-gets, Keeps-change, sparing, use_line-Keeps,
          use_block-Spares,
        )
        depth 12

  -- What is handled spares the queue.
  done_handling : Yields {E = E} (Handled i) (pure true)
  unfolding Handled
  done_handling = Yields-pure true (λ c. (refl, (Spares-IsPreorder i).same c))

  bind_handled :
      {A : Type 0} (m : Action E A) (f : A → Action E Bool)
      → Keeps (Spares i) m
      → ((a : A) → Yields (Handled i) (f a))
      → Yields (Handled i) (m >>= f)
  unfolding Handled
  bind_handled m f hm hf =
      Yields-bind m f hm hf λ a b c d c' s h. (h.0, (Spares-IsPreorder i).after c d c' s h.1)

  -- What waits on, and then may be handled.
  bind_waiting :
      {A : Type 0} (m : Action E A) (f : A → Action E Bool)
      → Keeps Waits m
      → ((a : A) → Yields (AfterMiss i) (f a))
      → Yields (AfterMiss i) (m >>= f)
  bind_waiting m f hm hf = Yields-bind m f hm hf λ a b c d c' w h. AfterMiss-after i b c d c' w h

  pure_waiting : Yields {E = E} (AfterMiss i) (pure false)
  unfolding AfterMiss
  pure_waiting = Yields-pure false Waits-IsPreorder.same

  Handled-AfterMiss : (m : Action E Bool) → Yields (Handled i) m → Yields (AfterMiss i) m
  unfolding Handled
  Handled-AfterMiss m h = Yields-mono m h λ b c c' p. Spares→AfterMiss i b c c' p.0 p.1

  pub lower_full-Waits : (k address : ℕ) → Keeps Waits (lower_full n k address)
  unfolding lower_full
  lower_full-Waits k address = search (keeps_rules, Waits-IsPreorder)

  pub ask_for_line-Handled : (cpu : ℕ) (c : Cache) → Yields (Handled i) (ask_for_line n cpu i c)
  unfolding ask_for_line
  ask_for_line-Handled cpu c =
      search (done_handling, bind_handled, keeps_rules, sparing, walk-Keeps, with_entry-Spares)
        depth 12

  -- A miss that is not handled leaves the queue as it was.
  read_miss_new-Yields : (cpu : ℕ) (p : Packet) → Yields (AfterMiss i) (read_miss_new n cpu i p)
  unfolding read_miss_new
  read_miss_new-Yields cpu p = bind_waiting _ _ (Keeps-gets Waits-IsPreorder _) λ c.
      bind_waiting _ _ (search (keeps_rules, Waits-IsPreorder, lower_full-Waits))
        λ full. Yields-if full _ _ pure_waiting (Handled-AfterMiss _ (ask_for_line-Handled cpu c))

  read_miss_old-Yields : (p : Packet) (o : Option ℕ) → Yields (AfterMiss i) (read_miss_old n p o)
  unfolding read_miss_old count_stall
  read_miss_old-Yields p none =
      search (pure_waiting, bind_waiting, keeps_rules, Waits-IsPreorder) depth 12
  read_miss_old-Yields p (some k) =
      Handled-AfterMiss _ (search (done_handling, bind_handled, keeps_rules, sparing) depth 12)

  retire_if :
      (handled : Bool) (m : Action E (Unit {0}))
      → Keeps (Retires n.uninit i) m
      → Yields (λ _ c c'. Settles n.uninit i handled c c') (when handled m)
  unfolding Settles
  retire_if true m h = h
  retire_if false m h = Yields-pure tt λ c. refl

  wait_before :
      {A : Type 0} (m : Action E A) (f : A → Action E (Unit {0}))
      → Keeps Waits m
      → ((a : A) → Keeps (Round n.uninit i) (f a))
      → Keeps (Round n.uninit i) (m >>= f)
  wait_before m f hm hf = Yields-bind m f hm hf λ a b c d c' w r. Round-after n.uninit i c d c' w r

  pub finish-Keeps :
      (cpu : ℕ)
      → Keeps (Retires n.uninit i) (do
        p' ← gets (entry_of reads i)
        train_on_read n cpu (shifted p'.address) 0 p'
        change (count_miss p'.type)
        retire n reads i)
  unfolding count_miss
  finish-Keeps cpu =
      search
        (spare_then_retire, retire-Keeps, Keeps-gets, Keeps-change, sparing, train_on_read-Keeps)
        depth 8

  pub missed-Yields :
      (cpu : ℕ) (p : Packet) (found : Option ℕ) (room : Bool)
      → Yields
          (AfterMiss i)
          (if is_missing found && room then read_miss_new n cpu i p else read_miss_old n p found)
  missed-Yields cpu p found room =
      Yields-if (is_missing found && room) _ _ (read_miss_new-Yields cpu p)
        (read_miss_old-Yields p found)

  read_miss-Keeps : (cpu : ℕ) → Keeps (Round n.uninit i) (read_miss n cpu i)
  unfolding read_miss
  read_miss-Keeps cpu = wait_before _ _ (Keeps-gets Waits-IsPreorder _) λ p.
      wait_before _ _ (Keeps-gets Waits-IsPreorder _) λ found.
        wait_before _ _ (Keeps-gets Waits-IsPreorder _) λ room.
          Yields-bind _ _ (missed-Yields cpu p found room)
            (λ handled. retire_if handled _ (finish-Keeps cpu))
            (λ handled b c d c' h s. Round-settled n.uninit i handled c d c' h s)

  pub look_up-Waits : (p : Packet) → Keeps Waits (look_up n p)
  unfolding look_up check_hit
  look_up-Waits p = Keeps-attempt _ λ c. ground arith

  -- In every run of a round that ends, the oldest read waits on as it is, or it leaves the queue and
  -- takes a port.
  pub read_oldest-Keeps : (cpu : ℕ) → Keeps (Round n.uninit i) (read_oldest n cpu i)
  unfolding read_oldest
  read_oldest-Keeps cpu = wait_before _ _ (Keeps-gets Waits-IsPreorder _) λ p.
      wait_before _ _ (Keeps-gets Waits-IsPreorder _) λ index.
        wait_before _ _ (look_up-Waits p) λ way.
          Keeps-found_or way _ _
            (λ w. Yields-mono _ (read_hit-Keeps cpu index w) λ _ c c' r. leaves r)
            (read_miss-Keeps cpu)
