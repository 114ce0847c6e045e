-- ===== src/Cache/Lookup/Invalidate.antt =====
-- `invalidate_entry` on a well-formed cache.
use mathlib.Core.Path.{subst}
use arishem.Base.{
  ℕ, ◌<◌, ◌≡◌, ◌≢◌, refl, ap, ◌∙◌, sym, arith, inl, inr, ◌==◌, true, false, Bool-cases,
  Option-cases, Option, none, some, Returns, le→not_ltb,
}
use arishem.Cache.State.{Block, Cache, block_at, set_at}
use arishem.Cache.Lru.{find_way}
use arishem.Cache.Lru.Victim.{find_way-some, find_way-none}
use arishem.Cache.Lookup.{get_set, holds, get_way, write_block, cleared_block, invalidate_entry}
use arishem.Cache.Lookup.Index.{get_set-lt}
use arishem.Cache.Lookup.Tags.{
  IsShaped, IsUnique, Misses, block_at-write_block_self, block_at-write_block_ne,
  write_block-IsShaped, get_way-missed,
}
use arishem.Cache.Lookup.Fill.{Outcome}

-- The result is the way that held the line, if any. Afterwards no way of the set holds the line,
-- and every other line is held by the ways that held it before.
pub record Invalidated (c : Cache) (index a : ℕ) (r : Option ℕ × Cache) : Type 0 where
  pub outcome : Outcome c index a r.0
  pub gone : get_way r.1 a index ≡ c.num_way
  pub others :
      (b i : ℕ)
      → b ≢ a
      → holds b (block_at (set_at r.1 index) i) ≡ holds b (block_at (set_at c index) i)
  pub shaped : IsShaped r.1

holds-cleared_block : (a : ℕ) (b : Block) → holds a (cleared_block b) ≡ false
unfolding cleared_block
holds-cleared_block a b = refl

other_line : (a b : ℕ) (x : Block) → holds a x ≡ true → b ≢ a → holds b x ≡ false
other_line a b x h ne = ground arith

module _ (c : Cache) (index a way : ℕ) (shape : IsShaped c) (inside : index < c.num_set)
    (unique : IsUnique c index) (way_lt : way < c.num_way)
    (here : holds a (block_at (set_at c index) way) ≡ true) where
  without : Cache
  without = write_block c index way (cleared_block (block_at (set_at c index) way))

  without_self : block_at (set_at without index) way ≡ cleared_block (block_at (set_at c index) way)
  unfolding without
  without_self = block_at-write_block_self c shape index inside way _ way_lt

  without_ne : (i : ℕ) → way ≢ i → block_at (set_at without index) i ≡ block_at (set_at c index) i
  unfolding without
  without_ne i ne = block_at-write_block_ne c shape index inside way i _ ne

  without-Misses : Misses without index a
  without-Misses i hi = elim (Bool-cases (way == i)) [
    | inl e ↦
        let same : way ≡ i = ground arith in
        subst (λ k. holds a (block_at (set_at without index) k) ≡ false) same
          (rw without_self (holds-cleared_block a (block_at (set_at c index) way)))
    | inr ne ↦ elim (Bool-cases (holds a (block_at (set_at c index) i))) [
      | inr z ↦ rw (without_ne i (ground arith)) z
      | inl y ↦ let e = unique a way i way_lt (unfold without in hi) here y in absurd (ground arith)
    ]
  ]

  without_others :
      (b i : ℕ)
      → b ≢ a
      → holds b (block_at (set_at without index) i) ≡ holds b (block_at (set_at c index) i)
  without_others b i ne = elim (Bool-cases (way == i)) [
    | inl e ↦
        let same : way ≡ i = ground arith in
        subst
          (λ k. holds b (block_at (set_at without index) k) ≡ holds b (block_at (set_at c index) k))
          same
          (rw without_self (
            holds-cleared_block b (block_at (set_at c index) way)
            ∙ sym (other_line a b (block_at (set_at c index) way) here ne)))
    | inr other ↦ ap (holds b) (without_ne i (ground arith))
  ]

  without-Invalidated : Invalidated c index a (some way, without)
  unfolding without
  without-Invalidated = record {
    outcome = (way_lt, here);
    gone = get_way-missed without index a without-Misses;
    others = without_others;
    shaped = write_block-IsShaped c shape index inside way _;
  }

-- `invalidate_entry` returns on every well-formed cache whose set of the line holds no line
-- twice. Its result is the way that held the line, if any; afterwards no way of the set holds the
-- line, and every other line is held by the ways that held it before.
pub invalidate_entry_lem :
    (c : Cache) (a : ℕ)
    → IsShaped c
    → IsUnique c (get_set c a)
    → Returns (invalidate_entry c a) (Invalidated c (get_set c a) a)
unfolding invalidate_entry
invalidate_entry_lem c a shape unique =
    let index = get_set c a in
    let inside = get_set-lt c a shape.some_set in
    let no_abort = le→not_ltb c.num_set index (omega arith) in
    elim (Option-cases (find_way (holds a) (set_at c index) 0 c.num_way)) [
      | inr (w, e) ↦
          let t = find_way-some (holds a) (set_at c index) 0 c.num_way w e in
          (
            (some w, without c index a w shape inside unique (omega (arith, t.to)) t.passes),
            rw (no_abort, e) (unfold without in refl),
            without-Invalidated c index a w shape inside unique (omega (arith, t.to)) t.passes,
          )
      | inl e ↦
          let m : Misses c index a = λ i h.
            find_way-none (holds a) (set_at c index) 0 c.num_way i e (omega arith) (omega arith) in
          (
            (none, c),
            rw (no_abort, e),
            record {
              outcome = m;
              gone = get_way-missed c index a m;
              others = λ b i ne. refl;
              shaped = shape;
            },
          )
    ]
