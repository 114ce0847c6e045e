-- ===== src/Cache/Handlers/Read/Tracking.antt =====
-- What `handle_read` does with a read keeps the miss-status registers a set of lines, and loses none of
-- them.
use arishem.Base.{
  ℕ, ◌≡◌, ◌≢◌, ◌<◌, refl, ap, ◌∙◌, sym, Bool, true, false, Option, none, some, arith,
}
use arishem.Packet.{Packet}
use arishem.Cache.State.{Cache}
use arishem.Cache.Mshr.{check_mshr}
use arishem.Cache.Mshr.Registers.{IsTracked}
use arishem.Cache.World.{Neighbours}
use arishem.Cache.World.Action.{Action, pure, gets, change, ◌>>=◌, ◌>>◌}
use arishem.Cache.World.Keeps.{
  IsPreorder, Keeps, Yields, Keeps-attempt, Keeps-change, Keeps-gets, Yields-bind, Yields-gets,
  Yields-mono, Yields-if, Yields-pure, keeps_rules, Relation,
}
use arishem.Cache.Steps.{
  reads, misses, queue_of, entry_of, with_entry, with_block, count_sim_hit, count_hit, count_miss,
  count_stall, note_miss, retire, lower_full,
}
use arishem.Cache.Steps.Tracked.{
  Tracks, Tracks-IsPreorder, Tracks-same, Notes, add_mshr-Notes, HasRegister, Covers,
  with_entry-Tracks, check_mshr-found,
}
use arishem.Cache.Steps.Tracking.{tracking, with_read-Tracks}
use arishem.Cache.Handlers.Fill.{shifted}
use arishem.Cache.Handlers.Read.{
  use_block, consumers, load_consumers, store_consumers, fetch_consumers, read_merged,
  train_on_read, use_line, read_hit, walk, ask_for_line, read_miss_new, read_miss_old,
}

Asked : Bool → Relation
Asked b c c' = (b ≡ true) × Tracks c c'

module _ {E : Type 0} (n : Neighbours E) (i : ℕ) where
  train_on_read-Tracks :
      (cpu addr hit : ℕ) (p : Packet) → Keeps Tracks (train_on_read n cpu addr hit p)
  unfolding train_on_read
  train_on_read-Tracks cpu addr hit p =
      search (keeps_rules, tracking, Tracks-same) depth 12 fits 3000

  use_line-Tracks : (cpu index way : ℕ) → Keeps Tracks (use_line n cpu i index way)
  unfolding use_line
  use_line-Tracks cpu index way = search (keeps_rules, tracking, train_on_read-Tracks) depth 14

  pub read_hit-Tracks : (cpu index way : ℕ) → Keeps Tracks (read_hit n cpu i index way)
  unfolding read_hit count_sim_hit count_hit use_block with_block
  read_hit-Tracks cpu index way =
      search (keeps_rules, tracking, use_line-Tracks, Tracks-same) depth 12

  walk-Tracks : (cpu : ℕ) → Keeps Tracks (walk n cpu i)
  unfolding walk
  walk-Tracks cpu = search (keeps_rules, tracking) depth 12

  pub finish-Tracks :
      (cpu : ℕ)
      → Keeps Tracks (do
        p' ← gets (entry_of reads i)
        train_on_read n cpu (shifted p'.address) 0 p'
        change (count_miss p'.type)
        retire n reads i)
  unfolding count_miss
  finish-Tracks cpu = search (keeps_rules, tracking, train_on_read-Tracks, Tracks-same) depth 8

  Notes-after : (p : Packet) (c d c' : Cache) → Notes p c d → Tracks d c' → Notes p c c'
  unfolding Notes Tracks Covers
  Notes-after p c d c' h k ne absent room t =
      let first = h ne absent room t in
      let second = k first.0 in
      (second.0, λ a used r. second.1 a used (first.1 a used r), second.1 p.address ne first.2)

  -- The oldest read takes a register.
  NotesAt : Relation
  NotesAt c c' = Notes (entry_of reads i c) c c'

  note_miss-Notes : Keeps NotesAt (note_miss n reads i)
  unfolding note_miss NotesAt
  note_miss-Notes =
      Yields-bind {Q = λ p _. Notes p} _ _ (Yields-gets _)
        (λ p.
          Yields-bind {P = λ _. Notes p} {Q = λ _ _. Tracks} _ _
            (Keeps-attempt _ λ c. add_mshr-Notes n.clock c p)
            (λ p'. Keeps-change _ λ c. with_read-Tracks c i p')
            λ a b c d c' h k. Notes-after p c d c' h k)
        λ p b c d c' g h. let e = g.0 in let same = g.1 in let h' = rw same at h in rw e at h'

  -- What a miss of the packet `p`, which is the read at the place, does if its search gave `found`: a
  -- handled one has a register.
  unfoldable pub Misses : Packet → Option ℕ → Bool → Relation
  Misses p found b c c' =
      p ≡ entry_of reads i c
      → found ≡ check_mshr c p
      → p.address ≢ 0
      → IsTracked c
      → IsTracked c' × Covers c c' × (b ≡ true → HasRegister c' p.address)

  -- The relation holds at the state that was read.
  Misses-here :
      (f : Cache → Packet) (p : Packet) (found : Option ℕ) (e : Packet) (b : Bool) (c d c' : Cache)
      → (e ≡ f c) × (d ≡ c)
      → (b ≡ true) × (e ≡ f d → Misses p found true d c')
      → Misses p found b c c'
  Misses-here f p found e b c d c' g h =
      let same = g.1 in
      let handled = h.0 in let r = h.1 (g.0 ∙ ap f (sym g.1)) in rw handled (rw same at r)

  -- The same for a new miss, with a register left.
  unfoldable pub News : Packet → Bool → Relation
  News p b c c' = c.mshr.occupancy < c.mshr_size → Misses p none b c c'

  Same : Relation
  Same c c' = c' ≡ c

  Same-IsPreorder : IsPreorder Same
  unfolding Same
  Same-IsPreorder = record { same = λ c. refl; after = λ c c' c'' h k. k ∙ h }

  lower_full-Same : (k address : ℕ) → Keeps Same (lower_full n k address)
  unfolding lower_full
  lower_full-Same k address = search (keeps_rules, Same-IsPreorder)

  News-bind :
      {A : Type 0} (p : Packet) (m : Action E A) (f : A → Action E Bool)
      → Keeps Same m
      → ((a : A) → Yields (News p) (f a))
      → Yields (News p) (m >>= f)
  unfolding Same
  News-bind p m f hm hf = Yields-bind m f hm hf λ a b c d c' e h. rw e at h

  News-refused : (p : Packet) → Yields {E = E} (News p) (pure false)
  unfolding News Misses Covers
  News-refused p =
      Yields-pure false
        λ c room at found ne t. (t, (λ a used h. h), λ (e : false ≡ true). absurd (cc))

  News-asked :
      (p : Packet) (m : Action E Bool)
      → Yields (λ b c c'. (b ≡ true) × NotesAt c c') m
      → Yields (News p) m
  unfolding News Misses NotesAt Notes
  News-asked p m h = Yields-mono m h λ b c c' notes room at absent ne t.
      let r = (rw (sym at) at notes.1) ne (sym absent) room t in (r.0, r.1, λ e. r.2)

  -- After the register is taken, the line is asked for.
  bind_asked :
      {A : Type 0} (m : Action E A) (f : A → Action E Bool)
      → Keeps Tracks m
      → ((a : A) → Yields (Asked) (f a))
      → Yields Asked (m >>= f)
  unfolding Asked
  bind_asked m f hm hf =
      Yields-bind m f hm hf λ a b c d c' s h. (h.0, Tracks-IsPreorder.after c d c' s h.1)

  done_asking : Yields {E = E} Asked (pure true)
  unfolding Asked
  done_asking = Yields-pure true (λ c. (refl, Tracks-IsPreorder.same c))

  pub read_miss_new-News : (cpu : ℕ) (p : Packet) → Yields (News p) (read_miss_new n cpu i p)
  unfolding read_miss_new ask_for_line Asked NotesAt
  read_miss_new-News cpu p = News-bind p _ _ (Keeps-gets Same-IsPreorder _) λ c.
      News-bind p _ _ (search (keeps_rules, Same-IsPreorder, lower_full-Same)) λ full.
        Yields-if full _ _ (News-refused p) (
          News-asked p _ (
            Yields-bind {Q = λ _. Asked} _ _ note_miss-Notes
              (λ p'. search (bind_asked, done_asking, keeps_rules, tracking, walk-Tracks) depth 12)
              λ a b c d c' h k. (k.0, Notes-after (entry_of reads i c) c d c' h k.1)))

  -- An unhandled miss keeps the registers.
  Refused : Bool → Relation
  Refused b c c' = (b ≡ false) × Tracks c c'

  bind_refused :
      {A : Type 0} (m : Action E A) (f : A → Action E Bool)
      → Keeps Tracks m
      → ((a : A) → Yields Refused (f a))
      → Yields Refused (m >>= f)
  unfolding Refused
  bind_refused m f hm hf =
      Yields-bind m f hm hf λ a b c d c' s h. (h.0, Tracks-IsPreorder.after c d c' s h.1)

  done_refusing : Yields {E = E} Refused (pure false)
  unfolding Refused
  done_refusing = Yields-pure false (λ c. (refl, Tracks-IsPreorder.same c))

  -- A register that merges with a read keeps its line.
  read_merged-address :
      (p e : Packet) → p.address ≡ e.address → (read_merged p e).address ≡ e.address
  unfolding read_merged consumers load_consumers store_consumers fetch_consumers
  read_merged-address p e same = ground (arith, same)

  -- The register that is merged into holds the line before and after.
  merged-Misses :
      (p e : Packet) (k : ℕ) (c : Cache)
      → e ≡ entry_of misses k c
      → Misses p (some k) true c (with_entry misses k (read_merged p e) c)
  unfolding Misses Tracks Covers HasRegister entry_of queue_of
  merged-Misses p e k c held at found ne t =
      let f = check_mshr-found c p k (sym found) in
      let line = sym f.1 ∙ ap (λ (x : Packet). x.address) (sym held) in
      let same = read_merged-address p e line ∙ ap (λ (x : Packet). x.address) held in
      let r = with_entry-Tracks c k (read_merged p e) f.0 same t in
      (r.0, r.1, λ _. r.1 p.address ne (k, f.0, f.1))

  Misses-after :
      (p : Packet) (found : Option ℕ) (b : Bool) (c d c' : Cache)
      → Misses p found b c d
      → Tracks d c'
      → Misses p found b c c'
  unfolding Misses Tracks Covers
  Misses-after p found b c d c' h k at search_result ne t =
      let first = h at search_result ne t in
      let second = k first.0 in
      (
        second.0,
        λ a used r. second.1 a used (first.1 a used r),
        λ e. second.1 p.address ne (first.2 e),
      )

  Merges : ℕ → Packet → Packet → Relation
  Merges k p e c c' = e ≡ entry_of misses k c → Misses p (some k) true c c'

  Refused-Misses :
      (p : Packet) (found : Option ℕ) (b : Bool) (c c' : Cache)
      → Refused b c c'
      → Misses p found b c c'
  unfolding Refused Misses Tracks
  Refused-Misses p found b c c' h at search_result ne t =
      let r = h.1 t in (r.0, r.1, λ e. absurd (cc (e, h.0)))

  pub read_miss_old-Misses :
      (p : Packet) (found : Option ℕ) → Yields (Misses p found) (read_miss_old n p found)
  unfolding read_miss_old count_stall Asked Merges
  read_miss_old-Misses p none =
      Yields-mono _
        (search (bind_refused, done_refusing, keeps_rules, Tracks-IsPreorder, Tracks-same) depth 12)
        λ b c c' h. Refused-Misses p none b c c' h
  read_miss_old-Misses p (some k) =
      Yields-bind {Q = λ e b c c'. (b ≡ true) × Merges k p e c c'} _ _ (Yields-gets _)
        (λ e.
          Yields-bind {P = λ _. Merges k p e} {Q = λ _. Asked} _ _
            (Keeps-change _ λ c held. merged-Misses p e k c held)
            (λ _.
              search (bind_asked, done_asking, keeps_rules, Tracks-IsPreorder, Tracks-same) depth
                12)
            λ a b c d c' h k'. (k'.0, λ held. Misses-after p (some k) true c d c' (h held) k'.1))
        λ e b c d c' g h. Misses-here (entry_of misses k) p (some k) e b c d c' g h
