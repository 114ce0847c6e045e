-- ===== src/Cache/Lookup/Fill.antt =====
-- `check_hit` and `fill_cache` on a well-formed cache.
use mathlib.Core.Path.{subst}
use arishem.Base.{
  ℕ, ◌<◌, ◌≡◌, ◌≢◌, refl, ap, ◌∙◌, sym, arith, inl, inr, ◌==◌, Bool, true, false, Bool-cases,
  Option-cases, Option, none, some, Returns, le→not_ltb, ◌&&◌, ◌||◌,
}
use arishem.Packet.{Packet}
use arishem.Cache.State.{Block, Cache, Knobs, block_at, set_at, is_itlb, is_dtlb, is_stlb}
use arishem.Cache.Lru.{find_way}
use arishem.Cache.Lru.Victim.{find_way-some, find_way-none}
use arishem.Cache.Lookup.{
  get_set, holds, get_way, check_hit, is_perfect, is_semi_perfect, write_block, filled_block,
  filled_cache, fill_cache,
}
use arishem.Cache.Lookup.Index.{get_set-lt}
use arishem.Cache.Lookup.Tags.{
  IsShaped, IsUnique, Misses, block_at-write_block_self, block_at-write_block_ne,
  write_block-IsShaped, get_way-found, holds-filled_block, tag-of_holds,
}

-- What the result of a lookup says of the set: a way that holds the line, or that none does.
abbrev pub Outcome : Cache → ℕ → ℕ → Option ℕ → Type 0
Outcome c index a none = Misses c index a
Outcome c index a (some way) = (way < c.num_way) × (holds a (block_at (set_at c index) way) ≡ true)

pub find_way-Outcome :
    (c : Cache) (index a : ℕ) → Outcome c index a (find_way (holds a) (set_at c index) 0 c.num_way)
find_way-Outcome c index a = elim (Option-cases (find_way (holds a) (set_at c index) 0 c.num_way)) [
  | inr (w, e) ↦
      let t = find_way-some (holds a) (set_at c index) 0 c.num_way w e in
      rw e (omega (arith, t.to), t.passes)
  | inl e ↦
      rw e (λ i h.
        find_way-none (holds a) (set_at c index) 0 c.num_way i e (omega arith) (omega arith))
]

-- In a cache with a set that is neither perfect nor semi-perfect, `check_hit` returns, changes
-- nothing, and finds a way that holds the packet's line exactly when one does.
pub check_hit_lem :
    (k : Knobs) (c : Cache) (p : Packet)
    → 0 < c.num_set
    → is_perfect k c ≡ false
    → is_semi_perfect k c ≡ false
    → Returns (check_hit k c p) λ r. (r.1 ≡ c) × Outcome c (get_set c p.address) p.address r.0
unfolding check_hit
check_hit_lem k c p pos not_perfect not_semi =
    let index = get_set c p.address in
    let lt = get_set-lt c p.address pos in
    let no_abort = le→not_ltb c.num_set index (omega arith) in
    (
      (find_way (holds p.address) (set_at c index) 0 c.num_way, c),
      rw (no_abort, not_perfect, not_semi),
      (refl, find_way-Outcome c index p.address),
    )

abbrev pub is_tlb : Cache → Bool
is_tlb c = c.cache_type == is_itlb || c.cache_type == is_dtlb || c.cache_type == is_stlb

-- What a fill of a line that the set does not hold does.
pub record Filled (c : Cache) (index way : ℕ) (p : Packet) (c' : Cache) : Type 0 where
  pub found : get_way c' p.address index ≡ way
  pub others : (i : ℕ) → way ≢ i → block_at (set_at c' index) i ≡ block_at (set_at c index) i
  pub same_rank : (block_at (set_at c' index) way).lru ≡ (block_at (set_at c index) way).lru
  pub clean : (block_at (set_at c' index) way).dirty ≡ 0
  pub shaped : IsShaped c'
  pub unique : IsUnique c' index

module _ (c : Cache) (index way : ℕ) (p : Packet) (shape : IsShaped c) (inside : index < c.num_set)
    (way_lt : way < c.num_way) (miss : Misses c index p.address) (unique : IsUnique c index) where
  new : Cache
  new = write_block c index way (filled_block (block_at (set_at c index) way) p)

  new_self : block_at (set_at new index) way ≡ filled_block (block_at (set_at c index) way) p
  unfolding new
  new_self = block_at-write_block_self c shape index inside way _ way_lt

  new_ne : (i : ℕ) → way ≢ i → block_at (set_at new index) i ≡ block_at (set_at c index) i
  unfolding new
  new_ne i ne = block_at-write_block_ne c shape index inside way i _ ne

  new-holds : holds p.address (block_at (set_at new index) way) ≡ true
  new-holds = rw new_self (holds-filled_block (block_at (set_at c index) way) p)

  only_way :
      (i : ℕ) → i < c.num_way → holds p.address (block_at (set_at new index) i) ≡ true → i ≡ way
  only_way i h hold = elim (Bool-cases (way == i)) [
    | inl e ↦ ground arith
    | inr ne ↦
        let old = new_ne i (ground arith) in let hold' = rw old at hold in absurd (cc (miss i h))
  ]

  line_at_way : (a i : ℕ) → way ≡ i → holds a (block_at (set_at new index) i) ≡ true → a ≡ p.address
  line_at_way a i e h =
      let h' = subst (λ k. holds a (block_at (set_at new index) k) ≡ true) (sym e) h in
      sym (tag-of_holds a (block_at (set_at new index) way) h')
      ∙ tag-of_holds p.address (block_at (set_at new index) way) new-holds

  unique_after :
      (a i j : ℕ)
      → i < c.num_way
      → j < c.num_way
      → holds a (block_at (set_at new index) i) ≡ true
      → holds a (block_at (set_at new index) j) ≡ true
      → i ≡ j
  unique_after a i j hi hj holds_i holds_j = elim (Bool-cases (way == i)) [
    | inl e ↦
        let a_eq = line_at_way a i (ground arith) holds_i in
        let j_eq =
          only_way j hj
            (subst (λ k. holds k (block_at (set_at new index) j) ≡ true) a_eq holds_j) in
        ground arith
    | inr ne ↦ elim (Bool-cases (way == j)) [
      | inl e ↦
          let a_eq = line_at_way a j (ground arith) holds_j in
          let i_eq =
            only_way i hi
              (subst (λ k. holds k (block_at (set_at new index) i) ≡ true) a_eq holds_i) in
          ground arith
      | inr ne' ↦
          unique a i j hi hj (rw (new_ne i (ground arith)) at holds_i)
            (rw (new_ne j (ground arith)) at holds_j)
    ]
  ]

  rank_kept : (block_at (set_at new index) way).lru ≡ (block_at (set_at c index) way).lru
  unfolding filled_block
  rank_kept = ap (λ (b : Block). b.lru) new_self

  cleaned : (block_at (set_at new index) way).dirty ≡ 0
  unfolding filled_block
  cleaned = ap (λ (b : Block). b.dirty) new_self

  -- In a well-formed cache, filling a way of a set that misses the packet's line and holds no
  -- line twice returns (a translation buffer must be given data other than 0). Afterwards
  -- `get_way` finds the line at that way, clean and with the rank that the way had, the other
  -- ways are as before, and the set holds no line twice.
  pub fill_cache_lem :
      (is_tlb c && p.data_value == 0) ≡ false
      → Returns (fill_cache c index way p) (Filled c index way p)
  unfolding fill_cache filled_cache new
  fill_cache_lem sane =
      let s =
        write_block-IsShaped c shape index inside way
          (filled_block (block_at (set_at c index) way) p) in
      (
        filled_cache c index way p,
        rw sane,
        record {
          found =
              get_way-found (filled_cache c index way p) index p.address way way_lt new-holds
                only_way;
          others = λ i ne. new_ne i ne;
          same_rank = rank_kept;
          clean = cleaned;
          shaped = record { sets = s.sets; some_set = s.some_set; ways = s.ways };
          unique = unique_after;
        },
      )
