-- ===== src/Tests/Sets.antt =====
-- Runs of the set of inc/set.h.
use arishem.Base.{ℕ, ◌<◌, ◌≡◌, ◌||◌, ◌==◌, arith, [], ◌∷◌}
use arishem.FastSet.Expand.{expand_lem}
use arishem.FastSet.{expand, FastSet, empty, insert, search, insert_all, join}
use arishem.FastSet.Order.{contains, member, IsSorted, IsValid}
use arishem.FastSet.Search.{search-member}
use arishem.FastSet.Insert.{member-insert, insert_all-IsValid, member-join}

abbrev three_values : FastSet
three_values = insert_all empty (9 ∷ 4 ∷ 70 ∷ [])

three_values-IsValid : IsValid three_values
three_values-IsValid =
    insert_all-IsValid empty (9 ∷ 4 ∷ 70 ∷ []) (tt, omega arith, tt) (ground arith)

-- Sixteen values, which are a bit set.
abbrev sixteen_values : FastSet
sixteen_values =
    insert_all empty
      (1 ∷ 3 ∷ 5 ∷ 7 ∷ 9 ∷ 11 ∷ 13 ∷ 15 ∷ 17 ∷ 19 ∷ 21 ∷ 23 ∷ 25 ∷ 27 ∷ 29 ∷ 200 ∷ [])

sixteen_values-IsValid : IsValid sixteen_values
sixteen_values-IsValid =
    insert_all-IsValid empty
      (1 ∷ 3 ∷ 5 ∷ 7 ∷ 9 ∷ 11 ∷ 13 ∷ 15 ∷ 17 ∷ 19 ∷ 21 ∷ 23 ∷ 25 ∷ 27 ∷ 29 ∷ 200 ∷ [])
      (tt, omega arith, tt) (ground arith)

search-member_example : search three_values 70 ≡ member three_values 70
search-member_example = search-member three_values 70 three_values-IsValid (omega arith)

member-insert_example : member (insert sixteen_values 5) 5 ≡ ((5 == 5) || member sixteen_values 5)
member-insert_example = member-insert sixteen_values 5 5 sixteen_values-IsValid (omega arith)

member-join_example :
    member (join three_values sixteen_values 255) 200
    ≡ (member three_values 200 || member sixteen_values 200)
member-join_example =
    member-join three_values sixteen_values 255 200 three_values-IsValid sixteen_values-IsValid
      (omega arith) (omega arith)

expand_lem_example :
    IsSorted (expand sixteen_values 256)
    × ((z : ℕ) → z < 256 → contains (expand sixteen_values 256) z ≡ member sixteen_values z)
expand_lem_example = expand_lem sixteen_values 256 sixteen_values-IsValid (omega arith)
