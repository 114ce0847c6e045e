-- ===== src/Cache/Lookup/Tags.antt =====
-- Lookups against fills and invalidations. In a well-formed cache no set holds a line twice; then
-- a filled line is found where it was put, and an invalidated one is not found.
use arishem.Base.{
  ℕ, ◌<◌, ◌≡◌, ◌≢◌, ap, ◌∙◌, arith, inl, inr, true, false, Option-cases, length, set, length-set,
  get_or-set_self, get_or-set_ne, All, All-set, All-get_or, replicate,
}
use arishem.Packet.{Packet}
use arishem.Cache.State.{Block, Cache, block_at, set_at, new_block}
use arishem.Cache.Lru.{find_way}
use arishem.Cache.Lru.Victim.{find_way-some, find_way-none}
use arishem.Cache.Lookup.{holds, get_way, write_block, filled_block}

-- The dimensions of the block array.
pub record IsShaped (c : Cache) : Type 0 where
  pub sets : length c.block ≡ c.num_set
  pub some_set : 0 < c.num_set
  pub ways : All (λ bs. length bs ≡ c.num_way) c.block

-- No two ways of the set hold one line.
abbrev pub IsUnique : Cache → ℕ → Type 0
IsUnique c index =
    (a i j : ℕ)
    → i < c.num_way
    → j < c.num_way
    → holds a (block_at (set_at c index) i) ≡ true
    → holds a (block_at (set_at c index) j) ≡ true
    → i ≡ j

-- No way of the set holds the line.
abbrev pub Misses : Cache → ℕ → ℕ → Type 0
Misses c index a = (i : ℕ) → i < c.num_way → holds a (block_at (set_at c index) i) ≡ false

module _ (c : Cache) (shape : IsShaped c) (index : ℕ) (inside : index < c.num_set) where
  pub ways_of_set : length (set_at c index) ≡ c.num_way
  ways_of_set =
      All-get_or (λ bs. length bs ≡ c.num_way) c.block index (replicate 0 new_block) shape.ways
        (omega (arith, shape.sets))

  -- Reading the set after one block is written.
  set_at-write_block :
      (way : ℕ) (b : Block) → set_at (write_block c index way b) index ≡ set (set_at c index) way b
  set_at-write_block way b =
      get_or-set_self c.block index (set (set_at c index) way b) (replicate 0 new_block)
        (omega (arith, shape.sets))

  pub block_at-write_block_self :
      (way : ℕ) (b : Block)
      → way < c.num_way
      → block_at (set_at (write_block c index way b) index) way ≡ b
  block_at-write_block_self way b h =
      ap (λ bs. block_at bs way) (set_at-write_block way b)
      ∙ get_or-set_self (set_at c index) way b new_block (omega (arith, ways_of_set))

  pub block_at-write_block_ne :
      (way i : ℕ) (b : Block)
      → way ≢ i
      → block_at (set_at (write_block c index way b) index) i ≡ block_at (set_at c index) i
  block_at-write_block_ne way i b ne =
      ap (λ bs. block_at bs i) (set_at-write_block way b)
      ∙ get_or-set_ne (set_at c index) way i b new_block ne

  pub write_block-IsShaped : (way : ℕ) (b : Block) → IsShaped (write_block c index way b)
  write_block-IsShaped way b = record {
    sets = length-set c.block index _ ∙ shape.sets;
    some_set = shape.some_set;
    ways =
        All-set (λ bs. length bs ≡ c.num_way) c.block index (set (set_at c index) way b) shape.ways
          (length-set (set_at c index) way b ∙ ways_of_set);
  }

-- What the two outcomes of the search for a line say.
pub get_way-found :
    (c : Cache) (index a way : ℕ)
    → way < c.num_way
    → holds a (block_at (set_at c index) way) ≡ true
    → ((i : ℕ) → i < c.num_way → holds a (block_at (set_at c index) i) ≡ true → i ≡ way)
    → get_way c a index ≡ way
unfolding get_way
get_way-found c index a way lt here only =
    elim (Option-cases (find_way (holds a) (set_at c index) 0 c.num_way)) [
      | inr (w, e) ↦
          let t = find_way-some (holds a) (set_at c index) 0 c.num_way w e in
          rw (e, get_way) (only w (omega (arith, t.to)) t.passes)
      | inl e ↦ absurd (
          cc (
            find_way-none (holds a) (set_at c index) 0 c.num_way way e (omega arith) (omega arith),
            here,
          ))
    ]

pub get_way-missed : (c : Cache) (index a : ℕ) → Misses c index a → get_way c a index ≡ c.num_way
unfolding get_way
get_way-missed c index a m = elim (Option-cases (find_way (holds a) (set_at c index) 0 c.num_way)) [
  | inl e ↦ rw (e, get_way)
  | inr (w, e) ↦
      let t = find_way-some (holds a) (set_at c index) 0 c.num_way w e in
      absurd (cc (m w (omega (arith, t.to)), t.passes))
]

pub holds-filled_block : (b : Block) (p : Packet) → holds p.address (filled_block b p) ≡ true
unfolding filled_block
holds-filled_block b p = ground arith

pub tag-of_holds : (a : ℕ) (b : Block) → holds a b ≡ true → b.tag ≡ a
tag-of_holds a b h = ground arith
