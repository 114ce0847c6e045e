-- ===== src/Cache/Handlers/Read/Fate.antt =====
-- The fate of a read in a round of `handle_read`.
use mathlib.Core.Path.{subst}
use arishem.Base.{
  ℕ, ◌≡◌, ◌≢◌, ◌⊎◌, inl, inr, refl, ap, ◌∙◌, sym, Bool, true, false, ◌&&◌, ok, Option, none, some,
  ltb, if◌then◌else◌, arith,
}
use arishem.Packet.{Packet, packet_at}
use arishem.PacketQueue.{PacketQueue}
use arishem.Cache.State.{Cache, Knobs}
use arishem.Cache.Lookup.{check_hit}
use arishem.Cache.Mshr.{check_mshr}
use arishem.Cache.Mshr.Registers.{IsTracked}
use arishem.Cache.World.{Neighbours, World}
use arishem.Cache.World.Action.{Action, when, found_or, is_missing}
use arishem.Cache.World.Keeps.{
  Ends, Ends-given, Keeps, Yields, Keeps-gets_then, Yields-bind, Yields-both, Yields-attempt,
  Yields-mono, Yields-pure, Relation,
}
use arishem.Cache.Steps.{queue_of, reads, entry_of, look_up}
use arishem.Cache.Steps.Tracked.{Tracks, Tracks-same, HasRegister, Covers}
use arishem.Cache.Handlers.Read.{read_hit, read_miss_new, read_miss_old, read_miss, read_oldest}
use arishem.Cache.Handlers.Read.Rounds.{AfterMiss, AfterMiss-waits, missed-Yields}
use arishem.Cache.Handlers.Read.Tracking.{
  Misses, News, read_hit-Tracks, finish-Tracks, read_miss_new-News, read_miss_old-Misses,
}

-- The lookup of the packet finds a block.
unfoldable pub IsHit : Knobs → Cache → Packet → Type 0
IsHit k c p = (way : ℕ) × (c' : Cache) × (check_hit k c p ≡ ok (some way, c'))

-- A lookup leaves the queue and the registers alone.
check_hit-same :
    (k : Knobs) (c : Cache) (p : Packet)
    → Ends
        (λ (r : Option ℕ × Cache).
          (r.1.rq ≡ c.rq)
          × (r.1.mshr ≡ c.mshr)
          × (r.1.mshr_size ≡ c.mshr_size)
          × (r.1.cache_type ≡ c.cache_type)
          × (r.1.reads_available_this_cycle ≡ c.reads_available_this_cycle)
          × (r.1.max_read ≡ c.max_read))
        (check_hit k c p)
unfolding check_hit
check_hit-same k c p = ground arith

unfoldable pub Looked : Knobs → Packet → Option ℕ → Relation
Looked k p o c d = check_hit k c p ≡ ok (o, d)

pub Looked-same :
    (k : Knobs) (p : Packet) (o : Option ℕ) (c d : Cache)
    → Looked k p o c d
    → (d.rq ≡ c.rq)
      × (d.mshr ≡ c.mshr)
      × (d.mshr_size ≡ c.mshr_size)
      × (d.cache_type ≡ c.cache_type)
      × (d.reads_available_this_cycle ≡ c.reads_available_this_cycle)
      × (d.max_read ≡ c.max_read)
unfolding Looked
Looked-same k p o c d e = rw e at (check_hit-same k c p)

-- What a round does with the read `p`: the registers stay a set of lines and lose none, and the read
-- waits, or it has hit, or its line has a register.
pub record Fate (k : Knobs) (p : Packet) (c c' : Cache) : Type 0 where
  pub tracked : IsTracked c'
  pub covers : Covers c c'
  pub outcome : (c'.rq ≡ c.rq) ⊎ (IsHit k c p ⊎ HasRegister c' p.address)

module _ {E : Type 0} (n : Neighbours E) (i : ℕ) where
  -- The registers stay a set of lines and lose none; the read waits, or its line has a register.
  MissFate : Relation
  MissFate c c' =
      (entry_of reads i c).address ≢ 0
      → IsTracked c
      → IsTracked c' × Covers c c' × ((c'.rq ≡ c.rq) ⊎ HasRegister c' (entry_of reads i c).address)

  Tried : Packet → Option ℕ → Bool → Bool → Relation
  Tried p found room b c c' = room ≡ ltb c.mshr.occupancy c.mshr_size → Misses n i p found b c c'

  missed-Tried :
      (cpu : ℕ) (p : Packet) (found : Option ℕ) (room : Bool)
      → Yields
          (Tried p found room)
          (if is_missing found && room then read_miss_new n cpu i p else read_miss_old n p found)
  unfolding Tried News
  missed-Tried cpu p none true =
      Yields-mono _ (read_miss_new-News n i cpu p) λ b c c' h room. h (ground (arith, room))
  missed-Tried cpu p none false = Yields-mono _ (read_miss_old-Misses n i p none) λ b c c' h room. h
  missed-Tried cpu p (some k) room =
      Yields-mono _ (read_miss_old-Misses n i p (some k)) λ b c c' h room. h

  -- The handled miss is counted and retired, and the other one waits.
  Finishes : Bool → Relation
  Finishes handled c c' = ((handled ≡ true) × Tracks c c') ⊎ ((handled ≡ false) × (c' ≡ c))

  finish_if :
      (handled : Bool) (m : Action E (Unit {0}))
      → Keeps Tracks m
      → Keeps (Finishes handled) (when handled m)
  unfolding Finishes
  finish_if true m h = Yields-mono m h λ a c c' t. inl (refl, t)
  finish_if false m h = Yields-pure tt λ c. inr (refl, refl)

  missed-MissFate :
      (p : Packet) (found : Option ℕ) (room handled : Bool) (c d c' : Cache)
      → AfterMiss i handled c d × Tried p found room handled c d
      → Finishes handled d c'
      → p ≡ entry_of reads i c
      → found ≡ check_mshr c p
      → room ≡ ltb c.mshr.occupancy c.mshr_size
      → MissFate c c'
  unfolding Tried MissFate Misses Finishes Tracks Covers
  missed-MissFate p found room handled c d c' h (inl (yes_handled, tracks)) at searched counted ne
        t =
      let line = ap (λ (x : Packet). x.address) at in
      let first = h.1 counted at searched (λ z. ne (sym line ∙ z)) t in
      let second = tracks first.0 in
      (
        second.0,
        λ a used r. second.1 a used (first.1 a used r),
        inr (second.1 _ ne (subst (HasRegister d) line (first.2 yes_handled))),
      )
  missed-MissFate p found room handled c d c' h (inr (not_handled, same)) at searched counted ne t =
      let line = ap (λ (x : Packet). x.address) at in
      let first = h.1 counted at searched (λ z. ne (sym line ∙ z)) t in
      rw same (first.0, first.1, inl (AfterMiss-waits i handled c d h.0 not_handled))

  read_miss-MissFate : (cpu : ℕ) → Keeps MissFate (read_miss n cpu i)
  unfolding read_miss
  read_miss-MissFate cpu = Keeps-gets_then _ _ λ p. Keeps-gets_then _ _ λ found.
      Keeps-gets_then _ _ λ room.
        Yields-bind _ _
          (Yields-both (AfterMiss i) (Tried p found room) _ (missed-Yields n i cpu p found room)
            (missed-Tried cpu p found room))
          (λ handled. finish_if handled _ (finish-Tracks n i cpu))
          λ handled b c d c' h k counted searched at.
            missed-MissFate p found room handled c d c' h k at searched counted

  pub look_up-Looked : (p : Packet) → Yields (Looked n.knobs p) (look_up n p)
  unfolding look_up Looked
  look_up-Looked p = Yields-attempt _ _ λ c. ground arith

  ByWay : Option ℕ → Relation
  ByWay (some way) = Tracks
  ByWay none = MissFate

  found_or-ByWay :
      (cpu index : ℕ) (o : Option ℕ)
      → Keeps (ByWay o) (found_or o (read_hit n cpu i index) (read_miss n cpu i))
  unfolding ByWay
  found_or-ByWay cpu index (some way) = read_hit-Tracks n i cpu index way
  found_or-ByWay cpu index none = read_miss-MissFate cpu

  ByWay-Fate :
      (p : Packet) (o : Option ℕ) (c d c' : Cache)
      → Looked n.knobs p o c d
      → ByWay o d c'
      → p ≡ entry_of reads i c
      → p.address ≢ 0
      → IsTracked c
      → Fate n.knobs p c c'
  unfolding Looked ByWay MissFate Tracks Covers IsHit entry_of queue_of
  ByWay-Fate p (some way) c d c' looked tracks at ne t =
      let same = Looked-same n.knobs p (some way) c d looked in
      let first = Tracks-same c d same.1 same.2 t in
      let second = tracks first.0 in
      record {
        tracked = second.0;
        covers = λ a used r. second.1 a used (first.1 a used r);
        outcome = inr (inl (way, d, looked));
      }
  ByWay-Fate p none c d c' looked missed at ne t =
      let same = Looked-same n.knobs p none c d looked in
      let first = Tracks-same c d same.1 same.2 t in
      let queue = same.0 in
      let here = ap (λ (q : PacketQueue). packet_at q.entry i) queue ∙ sym at in
      let line = ap (λ (x : Packet). x.address) here in
      let second = missed (λ z. ne (sym line ∙ z)) first.0 in
      record {
        tracked = second.0;
        covers = λ a used r. second.1 a used (first.1 a used r);
        outcome = elim (second.2) [
          | inl e ↦ inl (e ∙ queue)
          | inr h ↦ inr (inr (subst (HasRegister c') line h))
        ];
      }

  -- In every run of a round of handle_read that ends, for a read of a line other than 0, the
  -- miss-status registers stay a set of lines that the occupancy counts, no line loses its register,
  -- and no read is lost: the read queue is as it was, or the read has hit, or its line has a register.
  pub read_oldest_lem :
      (cpu : ℕ) (w : World E)
      → (packet_at w.cache.rq.entry i).address ≢ 0
      → IsTracked w.cache
      → Ends
          (λ (r : World E × Unit {0}).
            Fate n.knobs (packet_at w.cache.rq.entry i) w.cache r.0.cache)
          (read_oldest n cpu i w)
  unfolding read_oldest entry_of queue_of
  read_oldest_lem cpu w ne t =
      let run =
        Keeps-gets_then
          {R = λ c c'.
            (packet_at c.rq.entry i).address ≢ 0
            → IsTracked c
            → Fate n.knobs (packet_at c.rq.entry i) c c'}
          _ _
          λ p. Keeps-gets_then _ _ λ index.
            Yields-bind _ _ (look_up-Looked p) (found_or-ByWay cpu index)
              λ o b c d c' looked h index_is at ne' t'.
                rw at at (ByWay-Fate p o c d c' looked h at (rw at ne') t') in
      Ends-given _ (read_oldest n cpu i w) (Ends-given _ (read_oldest n cpu i w) (run.at w) ne) t
