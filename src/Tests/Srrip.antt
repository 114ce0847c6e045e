-- ===== src/Tests/Srrip.antt =====
-- Runs of the SRRIP policy of replacement/srrip.llc_repl, on a cache of one set.
use arishem.Base.{ℕ, ◌≤◌, ◌≡◌, ◌≢◌, refl, arith, [], ◌∷◌, some, All-get_or}
use arishem.Cache.Srrip.{Values, row_of, max_rrpv, llc_find_victim}
use arishem.Cache.Srrip.Victim.{IsRow, Victim, llc_find_victim_lem}

-- No way has the greatest value: the search ages them once, and way 2 is the first to get there.
abbrev one_set : Values
one_set = (0 ∷ 1 ∷ 2 ∷ 0 ∷ 2 ∷ 1 ∷ 0 ∷ 0 ∷ 2 ∷ 1 ∷ 0 ∷ 0 ∷ []) ∷ []

one_set-IsRow : IsRow (row_of one_set 0)
one_set-IsRow = record {
  ways = refl;
  bounded = λ i h. All-get_or (λ v. v ≤ max_rrpv) (row_of one_set 0) i 0 (ground arith) h;
}

llc_find_victim_lem_example :
    (found : ℕ × Values) × (llc_find_victim one_set 0 ≡ some found)
    × Victim (row_of one_set 0) (row_of found.1 0) found.0
    × ((j : ℕ) → 0 ≢ j → row_of found.1 j ≡ row_of one_set j)
llc_find_victim_lem_example = llc_find_victim_lem one_set 0 (omega arith) one_set-IsRow
