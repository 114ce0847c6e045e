-- ===== src/Cache/Handlers/Read/Progress.antt =====
-- When a read of a cache other than the last level leaves the queue.
use arishem.Base.{
  ℕ, ◌≡◌, ◌≢◌, ◌<◌, ◌⊎◌, inl, inr, refl, ap, ◌∙◌, sym, Bool, true, false, ◌&&◌, Option, none, some,
  ltb, ◌==◌, if◌then◌else◌, arith, lt→ltb,
}
use arishem.Packet.{Packet, packet_at}
use arishem.PacketQueue.{PacketQueue}
use arishem.Cache.State.{Cache, is_llc}
use arishem.Cache.Mshr.{check_mshr}
use arishem.Cache.World.{Neighbours, World}
use arishem.Cache.World.Action.{Action, pure, when, found_or, is_missing}
use arishem.Cache.World.Keeps.{
  Ends, Ends-given, Keeps, Yields, Keeps-gets_then, Yields-bind, Yields-last, Yields-gets,
  Yields-both, Yields-mono, Yields-pure, Relation,
}
use arishem.Cache.Steps.{queue_of, reads, entry_of, lower_full}
use arishem.Cache.Steps.Sparing.{lower_full-Keeps}
use arishem.Cache.Handlers.Read.{
  read_hit, ask_for_line, read_miss_new, read_miss_old, read_miss, read_oldest,
}
use arishem.Cache.Handlers.Read.Fate.{IsHit, Looked, Looked-same, look_up-Looked}
use arishem.Cache.Handlers.Read.Rounds.{
  Retires, AfterMiss, AfterMiss-leaves, Handled, Retires-after, Waits→Spares, ask_for_line-Handled,
  missed-Yields, read_hit-Keeps, finish-Keeps,
}

check_mshr-same :
    (c d : Cache) (p : Packet)
    → d.mshr ≡ c.mshr
    → d.mshr_size ≡ c.mshr_size
    → check_mshr d p ≡ check_mshr c p
unfolding check_mshr
check_mshr-same c d p m s = rw (m, s) refl

module _ {E : Type 0} (n : Neighbours E) (i : ℕ) where
  -- The lower queue is looked at in the last level alone.
  looked_below :
      (address : ℕ) (last : Bool)
      → Yields
          (λ full _ _. last ≡ false → full ≡ false)
          (if last then lower_full n 1 address else pure false)
  looked_below address true =
      Yields-mono _ (lower_full-Keeps n i 1 address) λ full c c' h e. absurd (cc (e))
  looked_below address false = Yields-pure false λ c e. refl

  asked :
      (cpu : ℕ) (c : Cache) (full : Bool)
      → Yields
          (λ b _ _. full ≡ false → b ≡ true)
          (if full then pure false else ask_for_line n cpu i c)
  unfolding Handled
  asked cpu c true = Yields-pure false λ c' e. absurd (cc (e))
  asked cpu c false = Yields-mono _ (ask_for_line-Handled n i cpu c) λ b c c' h e. h.0

  read_miss_new-handled :
      (cpu : ℕ) (p : Packet)
      → Yields (λ b c _. (c.cache_type == is_llc) ≡ false → b ≡ true) (read_miss_new n cpu i p)
  unfolding read_miss_new
  read_miss_new-handled cpu p =
      Yields-bind {Q = λ a b _ _. (a.cache_type == is_llc) ≡ false → b ≡ true} _ _ (Yields-gets _)
        (λ a.
          Yields-bind {Q = λ full b _ _. full ≡ false → b ≡ true} _ _
            (looked_below p.address (a.cache_type == is_llc)) (λ full. asked cpu a full)
            λ full b c d c' first second e. second (first e))
        λ a b c d c' g h e. h (ap (λ (x : Cache). x.cache_type == is_llc) g.0 ∙ e)

  read_miss_old-handled :
      (p : Packet) (k : ℕ) → Yields (λ b _ _. b ≡ true) (read_miss_old n p (some k))
  unfolding read_miss_old
  read_miss_old-handled p k =
      Yields-last _ _ λ e.
        Yields-last _ _ λ _. Yields-last _ _ λ _. Yields-last _ _ λ _. Yields-pure true λ c. refl

  -- A miss is handled if a register has the line, or one is free.
  Handles : Option ℕ → Bool → Bool → Relation
  Handles found room b c c' =
      (c.cache_type == is_llc) ≡ false → (is_missing found ≡ false) ⊎ (room ≡ true) → b ≡ true

  no_way : (true ≡ false) ⊎ (false ≡ true) → ⊥
  no_way (inl e) = cc (e)
  no_way (inr e) = cc (e)

  missed-Handles :
      (cpu : ℕ) (p : Packet) (found : Option ℕ) (room : Bool)
      → Yields
          (Handles found room)
          (if is_missing found && room then read_miss_new n cpu i p else read_miss_old n p found)
  unfolding Handles
  missed-Handles cpu p none true = Yields-mono _ (read_miss_new-handled cpu p) λ b c c' h e way. h e
  missed-Handles cpu p none false =
      Yields-mono _ (missed-Yields n i cpu p none false) λ b c c' h e way. absurd (no_way way)
  missed-Handles cpu p (some k) room = Yields-mono _ (read_miss_old-handled p k) λ b c c' h e way. h

  -- The read leaves the queue.
  MissLeaves : Relation
  MissLeaves c c' =
      (c.cache_type == is_llc) ≡ false
      → (check_mshr c (entry_of reads i c) ≢ none) ⊎ (c.mshr.occupancy < c.mshr_size)
      → Retires n.uninit i c c'

  finish_if :
      (handled : Bool) (m : Action E (Unit {0}))
      → Keeps (Retires n.uninit i) m
      → Keeps (λ c c'. handled ≡ true → Retires n.uninit i c c') (when handled m)
  finish_if true m h = Yields-mono m h λ a c c' r e. r
  finish_if false m h = Yields-pure tt λ c e. absurd (cc (e))

  has_way :
      (p : Packet) (found : Option ℕ) (room : Bool) (c : Cache)
      → p ≡ entry_of reads i c
      → found ≡ check_mshr c p
      → room ≡ ltb c.mshr.occupancy c.mshr_size
      → (check_mshr c (entry_of reads i c) ≢ none) ⊎ (c.mshr.occupancy < c.mshr_size)
      → (is_missing found ≡ false) ⊎ (room ≡ true)
  has_way p none room c at searched counted (inl h) =
      absurd (h (ap (check_mshr c) (sym at) ∙ sym searched))
  has_way p (some k) room c at searched counted (inl h) = inl refl
  has_way p found room c at searched counted (inr h) =
      inr (counted ∙ lt→ltb c.mshr.occupancy c.mshr_size h)

  read_miss-MissLeaves : (cpu : ℕ) → Keeps MissLeaves (read_miss n cpu i)
  unfolding read_miss MissLeaves Handles
  read_miss-MissLeaves cpu = Keeps-gets_then _ _ λ p. Keeps-gets_then _ _ λ found.
      Keeps-gets_then _ _ λ room.
        Yields-bind _ _
          (Yields-both (AfterMiss i) (Handles found room) _ (missed-Yields n i cpu p found room)
            (missed-Handles cpu p found room))
          (λ handled. finish_if handled _ (finish-Keeps n i cpu))
          λ handled b c d c' h k counted searched at inner cause.
            let yes_handled = h.1 inner (has_way p found room c at searched counted cause) in
            AfterMiss-leaves n.uninit i handled c d c' h.0 yes_handled (k yes_handled)

  ByWay : Option ℕ → Relation
  ByWay (some way) = Retires n.uninit i
  ByWay none = MissLeaves

  found_or-ByWay :
      (cpu index : ℕ) (o : Option ℕ)
      → Keeps (ByWay o) (found_or o (read_hit n cpu i index) (read_miss n cpu i))
  unfolding ByWay
  found_or-ByWay cpu index (some way) = read_hit-Keeps n i cpu index way
  found_or-ByWay cpu index none = read_miss-MissLeaves cpu

  -- What lets a read leave the queue.
  CanLeave : Cache → Packet → Type 0
  CanLeave c p = IsHit n.knobs c p ⊎ ((check_mshr c p ≢ none) ⊎ (c.mshr.occupancy < c.mshr_size))

  entry_of-same :
      (c d : Cache) (p : Packet) → d.rq ≡ c.rq → p ≡ entry_of reads i c → entry_of reads i d ≡ p
  unfolding entry_of queue_of
  entry_of-same c d p queue at = ap (λ (q : PacketQueue). packet_at q.entry i) queue ∙ sym at

  still_can :
      (p : Packet) (c d : Cache)
      → p ≡ entry_of reads i c
      → Looked n.knobs p none c d
      → CanLeave c p
      → (check_mshr d (entry_of reads i d) ≢ none) ⊎ (d.mshr.occupancy < d.mshr_size)
  unfolding CanLeave IsHit Looked
  still_can p c d at looked (inl (way, d', hit)) = absurd (cc (looked, hit))
  still_can p c d at looked (inr (inl registered)) =
      let same = Looked-same n.knobs p none c d looked in
      let searched = check_mshr-same c d p same.1 same.2 in
      let read = entry_of-same c d p same.0 at in
      inl λ e. registered (sym searched ∙ ap (check_mshr d) (sym read) ∙ e)
  still_can p c d at looked (inr (inr room)) =
      let same = Looked-same n.knobs p none c d looked in
      let m = ap (λ (q : PacketQueue). q.occupancy) same.1 in inr (omega (arith, m, same.2, room))

  ByWay-Retires :
      (p : Packet) (o : Option ℕ) (c d c' : Cache)
      → Looked n.knobs p o c d
      → ByWay o d c'
      → p ≡ entry_of reads i c
      → (c.cache_type == is_llc) ≡ false
      → CanLeave c p
      → Retires n.uninit i c c'
  unfolding ByWay MissLeaves
  ByWay-Retires p (some way) c d c' looked r at inner cause =
      let same = Looked-same n.knobs p (some way) c d looked in
      Retires-after n.uninit i c d c'
        (Waits→Spares i c d record { queue = same.0; ports = same.4; most = same.5 }) r
  ByWay-Retires p none c d c' looked leaves_if at inner cause =
      let same = Looked-same n.knobs p none c d looked in
      let r = leaves_if (ap (λ x. x == is_llc) same.3 ∙ inner) (still_can p c d at looked cause) in
      Retires-after n.uninit i c d c'
        (Waits→Spares i c d record { queue = same.0; ports = same.4; most = same.5 }) r

  -- In every run of a round of handle_read that ends, in a cache other than the last level, the read
  -- leaves the queue and takes a port if it hits, or its line has a register, or a register is free.
  pub read_oldest-Retires :
      (cpu : ℕ) (w : World E)
      → (w.cache.cache_type == is_llc) ≡ false
      → IsHit n.knobs w.cache (packet_at w.cache.rq.entry i)
        ⊎ ((check_mshr w.cache (packet_at w.cache.rq.entry i) ≢ none)
            ⊎ (w.cache.mshr.occupancy < w.cache.mshr_size))
      → Ends
          (λ (r : World E × Unit {0}). Retires n.uninit i w.cache r.0.cache)
          (read_oldest n cpu i w)
  unfolding read_oldest entry_of queue_of CanLeave
  read_oldest-Retires cpu w inner cause =
      let run =
        Keeps-gets_then
          {R = λ c c'.
            (c.cache_type == is_llc) ≡ false
            → CanLeave c (packet_at c.rq.entry i)
            → Retires n.uninit i c c'}
          _ _
          λ p. Keeps-gets_then _ _ λ index.
            Yields-bind _ _ (look_up-Looked n i p) (found_or-ByWay cpu index)
              λ o b c d c' looked h index_is at inner' cause'.
                ByWay-Retires p o c d c' looked h at inner' (rw at cause') in
      Ends-given _ (read_oldest n cpu i w) (Ends-given _ (read_oldest n cpu i w) (run.at w) inner)
        cause
