-- ===== src/Cache/Lookup/Pages.antt =====
-- The page buffer of a semi-perfect cache: the most recent distinct pages, at most as many as the
-- knob says, the oldest replaced first.
use arishem.Base.{
  ℕ, ◌≤◌, ◌<◌, ◌≡◌, refl, arith, inl, inr, leb, true, false, ◌||◌, Bool-cases, List, [], ◌∷◌, ◌++◌,
  length, drop, length-append,
}
use arishem.Cache.Lookup.{has_page, search_and_add}

has_page-append :
    (page : ℕ) (xs ys : List ℕ) → has_page page (xs ++ ys) ≡ (has_page page xs || has_page page ys)
unfolding has_page
has_page-append page [] ys = refl
has_page-append page (x ∷ xs) ys = ground (arith, has_page-append page xs ys)

-- No page stands in the buffer twice.
abbrev pub IsDistinct : List ℕ → Type 0
IsDistinct [] = Unit
IsDistinct (p ∷ ps) = (has_page p ps ≡ false) × IsDistinct ps

IsDistinct-snoc :
    (ps : List ℕ) (page : ℕ)
    → IsDistinct ps
    → has_page page ps ≡ false
    → IsDistinct (ps ++ page ∷ [])
unfolding has_page
IsDistinct-snoc [] page d h = (refl, tt)
IsDistinct-snoc (p ∷ ps) page d h = (
  ground (arith, has_page-append p ps (page ∷ []), d.0),
  IsDistinct-snoc ps page d.1 (ground arith),
)

IsDistinct-drop : (ps : List ℕ) → IsDistinct ps → IsDistinct (drop 1 ps)
IsDistinct-drop [] d = tt
IsDistinct-drop (p ∷ ps) d = d.1

has_page-drop :
    (page : ℕ) (ps : List ℕ) → has_page page ps ≡ false → has_page page (drop 1 ps) ≡ false
unfolding has_page
has_page-drop page [] h = refl
has_page-drop page (p ∷ ps) h = ground arith

length-drop_one :
    (ps : List ℕ) (limit : ℕ) → length ps ≤ limit → 0 < limit → length (drop 1 ps) < limit
length-drop_one [] limit h pos = omega arith
length-drop_one (p ∷ ps) limit h pos = omega arith

-- Called with a limit above 0 on a buffer within the limit and without repetition,
-- `search_and_add` keeps it so, says whether the page was there, and leaves a buffer that holds
-- the page.
pub search_and_add_lem :
    (limit : ℕ) (ps : List ℕ) (page : ℕ)
    → 0 < limit
    → length ps ≤ limit
    → IsDistinct ps
    → let (found, ps') = search_and_add limit ps page in
      (found ≡ has_page page ps)
      × (length ps' ≤ limit)
      × IsDistinct ps'
      × (has_page page ps' ≡ true)
unfolding search_and_add has_page
search_and_add_lem limit ps page pos len d = elim (Bool-cases (has_page page ps)) [
  | inl here ↦ rw here (refl, len, d, here)
  | inr absent ↦
      let last = has_page-append page (drop 1 ps) (page ∷ []) in
      let last' = has_page-append page ps (page ∷ []) in
      elim (Bool-cases (leb limit (length ps))) [
        | inl full ↦
            rw (absent, full)
              (
                refl,
                omega (
                  arith,
                  length-append (drop 1 ps) (page ∷ []),
                  length-drop_one ps limit len pos,
                ),
                IsDistinct-snoc (drop 1 ps) page (IsDistinct-drop ps d)
                    (has_page-drop page ps absent),
                ground arith,
              )
        | inr room ↦
            rw (absent, room)
              (
                refl,
                ground (arith, length-append ps (page ∷ [])),
                IsDistinct-snoc ps page d absent,
                ground arith,
              )
      ]
]
