-- ===== src/Tests/Lookups.antt =====
-- Runs of the lookups of src/cache.cc, on a cache whose second set holds one line.
use arishem.Base.{zero, suc, ◌+◌, ◌^◌, ◌≤◌, ◌<◌, ◌≡◌, refl, arith, true, [], ◌∷◌, length, Returns}
use arishem.Cache.State.{new_block, Cache}
use arishem.Cache.Lookup.{
  lg2, lg2_rounds, get_set, has_page, search_and_add, is_perfect, is_semi_perfect, check_hit,
  filled_block, invalidate_entry, fill_cache,
}
use arishem.Cache.Lookup.Index.{lg2_bounds}
use arishem.Cache.Lookup.Tags.{IsShaped, IsUnique, Misses}
use arishem.Cache.Lookup.Fill.{Outcome, check_hit_lem, Filled, fill_cache_lem}
use arishem.Cache.Lookup.Invalidate.{Invalidated, invalidate_entry_lem}
use arishem.Cache.Lookup.Pages.{IsDistinct, search_and_add_lem}
use arishem.Tests.Data.{load_of, two_ways, l2c, real_cache}

lg2_bounds_example : (2 ^ lg2 12 ≤ 12) × (12 < 2 ^ (lg2 12 + 1))
lg2_bounds_example = lg2_bounds 12 (omega arith)

-- The second set holds line 3.
abbrev with_line : Cache
with_line = record l2c {
  block = two_ways ∷ (filled_block new_block (load_of 3) ∷ record new_block { lru = 1 } ∷ []) ∷ [];
}

with_line-IsShaped : IsShaped with_line
with_line-IsShaped = record { sets = refl; some_set = omega arith; ways = (refl, (refl, tt)) }

with_line-IsUnique : IsUnique with_line 1
unfolding filled_block
with_line-IsUnique a zero zero hi hj x y = refl
with_line-IsUnique a zero (suc zero) hi hj x y = absurd (ground arith)
with_line-IsUnique a (suc zero) zero hi hj x y = absurd (ground arith)
with_line-IsUnique a (suc zero) (suc zero) hi hj x y = refl
with_line-IsUnique a (suc (suc i)) j hi hj x y = absurd (omega arith)
with_line-IsUnique a zero (suc (suc j)) hi hj x y = absurd (omega arith)
with_line-IsUnique a (suc zero) (suc (suc j)) hi hj x y = absurd (omega arith)

with_line-Misses : Misses with_line 1 5
unfolding filled_block
with_line-Misses zero h = refl
with_line-Misses (suc zero) h = refl
with_line-Misses (suc (suc i)) h = absurd (omega arith)

check_hit_lem_example :
    Returns
      (check_hit real_cache with_line (load_of 3))
      λ r. (r.1 ≡ with_line) × Outcome with_line (get_set with_line 3) 3 r.0
unfolding is_perfect is_semi_perfect
check_hit_lem_example = check_hit_lem real_cache with_line (load_of 3) (omega arith) refl refl

fill_cache_lem_example :
    Returns (fill_cache with_line 1 1 (load_of 5)) (Filled with_line 1 1 (load_of 5))
fill_cache_lem_example =
    fill_cache_lem with_line 1 1 (load_of 5) with_line-IsShaped (omega arith) (omega arith)
      with_line-Misses with_line-IsUnique refl

invalidate_entry_lem_example :
    Returns (invalidate_entry with_line 3) (Invalidated with_line (get_set with_line 3) 3)
unfolding get_set lg2 lg2_rounds
invalidate_entry_lem_example =
    invalidate_entry_lem with_line 3 with_line-IsShaped with_line-IsUnique

search_and_add_lem_example :
    let (found, ps) = search_and_add 2 (4 ∷ 6 ∷ []) 9 in
    (found ≡ has_page 9 (4 ∷ 6 ∷ [])) × (length ps ≤ 2) × IsDistinct ps × (has_page 9 ps ≡ true)
unfolding has_page
search_and_add_lem_example =
    search_and_add_lem 2 (4 ∷ 6 ∷ []) 9 (omega arith) (omega arith) (refl, (refl, tt))
