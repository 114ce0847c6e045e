-- ===== src/Cache/Lru/History.antt =====
-- Ranks tell how recently ways were used: of two ways, the one used later has the lower rank.
use mathlib.Core.Path.{subst}
use arishem.Base.{
  ℕ, zero, suc, ◌+◌, ◌≤◌, ◌<◌, ◌≡◌, ◌≢◌, refl, ap, ◌∙◌, sym, List, [], ◌∷◌, ◌++◌, arith, ltb, ◌==◌,
  length, inl, inr, Bool-cases, if◌then◌else◌, All, All-get_or, get_or-set_self, get_or-set_ne,
}
use arishem.Cache.State.{Block, block_at, new_block}
use arishem.Cache.Lru.{age_below, lru_update}
use arishem.Cache.Lru.Rank.{
  count_rank, IsRanked, length-age_below, block_at-age_below, lru_update-IsRanked,
}

-- The set after a sequence of uses.
unfoldable pub touch_all : List Block → List ℕ → List Block
touch_all bs [] = bs
touch_all bs (w ∷ ws) = touch_all (lru_update bs w) ws

counted :
    (r : ℕ) (bs : List Block) (i : ℕ)
    → i < length bs
    → (block_at bs i).lru ≡ r
    → 1 ≤ count_rank r bs
unfolding count_rank
counted r [] i h e = absurd (omega arith)
counted r (b ∷ bs) zero h e = ground arith
counted r (b ∷ bs) (suc i) h e = ground (arith, counted r bs i)

counted_twice :
    (r : ℕ) (bs : List Block) (i j : ℕ)
    → i < j
    → j < length bs
    → (block_at bs i).lru ≡ r
    → (block_at bs j).lru ≡ r
    → 2 ≤ count_rank r bs
unfolding count_rank
counted_twice r [] i j h k e f = absurd (omega arith)
counted_twice r (b ∷ bs) i zero h k e f = absurd (omega arith)
counted_twice r (b ∷ bs) zero (suc j) h k e f = ground (arith, counted r bs j (omega arith) f)
counted_twice r (b ∷ bs) (suc i) (suc j) h k e f =
    ground (arith, counted_twice r bs i j (omega arith) (omega arith) e f)

module _ (n : ℕ) (bs : List Block) (v : IsRanked n bs) where
  rank-lt : (i : ℕ) → i < n → (block_at bs i).lru < n
  rank-lt i h = All-get_or (λ b. b.lru < n) bs i new_block v.below (omega (arith, v.ways))

  -- No two ways of a ranked set have one rank.
  rank-ne : (i j : ℕ) → i < n → j < n → i ≢ j → (block_at bs i).lru ≢ (block_at bs j).lru
  rank-ne i j hi hj ne e =
      let r = (block_at bs j).lru in
      let one = v.once r (rank-lt j hj) in
      elim (Bool-cases (ltb i j)) [
        | inl lt ↦
            omega (arith, counted_twice r bs i j (ground arith) (omega (arith, v.ways)) e refl)
        | inr ge ↦
            omega (arith, counted_twice r bs j i (ground arith) (omega (arith, v.ways)) refl e)
      ]

  touched : (w : ℕ) → w < n → (block_at (lru_update bs w) w).lru ≡ 0
  unfolding lru_update
  touched w h =
      let aged = age_below (block_at bs w).lru bs in
      let e =
        get_or-set_self aged w (record (block_at aged w) { lru = 0 }) new_block
          (omega (arith, v.ways, length-age_below (block_at bs w).lru bs)) in
      ap (λ (b : Block). b.lru) e

  untouched :
      (w i : ℕ)
      → w < n
      → i < n
      → w ≢ i
      → (block_at (lru_update bs w) i).lru ≡ (
          if ltb (block_at bs i).lru (block_at bs w).lru
          then (block_at bs i).lru + 1
          else (block_at bs i).lru)
  unfolding lru_update
  untouched w i hw hi ne =
      let t = (block_at bs w).lru in
      let aged = age_below t bs in
      let e = get_or-set_ne aged w i (record (block_at aged w) { lru = 0 }) new_block ne in
      ap (λ (b : Block). b.lru) e
      ∙ block_at-age_below t n bs i (omega (arith, rank-lt w hw, v.small)) (omega (arith, v.ways))

  -- A use puts its way before all others.
  touched_first :
      (w j : ℕ)
      → w < n
      → j < n
      → w ≢ j
      → (block_at (lru_update bs w) w).lru < (block_at (lru_update bs w) j).lru
  touched_first w j hw hj ne =
      ground (arith, touched w hw, untouched w j hw hj ne, rank-ne j w hj hw (λ e. ne (sym e)))

  -- A use of another way leaves a way behind every way that was before it.
  order_kept :
      (w i j : ℕ)
      → w < n
      → i < n
      → j < n
      → w ≢ j
      → (block_at bs i).lru < (block_at bs j).lru
      → (block_at (lru_update bs w) i).lru < (block_at (lru_update bs w) j).lru
  order_kept w i j hw hi hj ne lt = elim (Bool-cases (w == i)) [
    | inl e ↦
        let e' : w ≡ i = ground arith in
        let t = touched_first w j hw hj ne in
        subst (λ k. (block_at (lru_update bs w) k).lru < (block_at (lru_update bs w) j).lru) e' t
    | inr other ↦ ground (
      arith,
      untouched w i hw hi (ground arith),
      untouched w j hw hj ne,
      rank-ne j w hj hw (λ e. ne (sym e)),
    )
  ]

order_kept-All :
    (n : ℕ) (ws : List ℕ) (bs : List Block) (i j : ℕ)
    → IsRanked n bs
    → All (λ w. (w < n) × (w ≢ j)) ws
    → i < n
    → j < n
    → (block_at bs i).lru < (block_at bs j).lru
    → (block_at (touch_all bs ws) i).lru < (block_at (touch_all bs ws) j).lru
unfolding touch_all
order_kept-All n [] bs i j v a hi hj lt = lt
order_kept-All n (w ∷ ws) bs i j v a hi hj lt =
    order_kept-All n ws (lru_update bs w) i j (lru_update-IsRanked n bs w a.0.0 v) a.1 hi hj
      (order_kept n bs v w i j a.0.0 hi hj a.0.1 lt)

pub touch_all-IsRanked :
    (n : ℕ) (ws : List ℕ) (bs : List Block)
    → IsRanked n bs
    → All (λ w. w < n) ws
    → IsRanked n (touch_all bs ws)
unfolding touch_all
touch_all-IsRanked n [] bs v a = v
touch_all-IsRanked n (w ∷ ws) bs v a =
    touch_all-IsRanked n ws (lru_update bs w) (lru_update-IsRanked n bs w a.0 v) a.1

touch_all-append :
    (bs : List Block) (xs ys : List ℕ) → touch_all bs (xs ++ ys) ≡ touch_all (touch_all bs xs) ys
unfolding touch_all
touch_all-append bs [] ys = refl
touch_all-append bs (x ∷ xs) ys = touch_all-append (lru_update bs x) xs ys

-- In any history of uses of a ranked set, a way that is used after the last use of another way
-- ends with a lower rank than that way.
pub later_use-lt :
    (n : ℕ) (bs : List Block) (before after : List ℕ) (i j : ℕ)
    → IsRanked n bs
    → All (λ w. w < n) before
    → i < n
    → j < n
    → i ≢ j
    → All (λ w. (w < n) × (w ≢ j)) after
    → let final = touch_all bs (before ++ i ∷ after) in
      (block_at final i).lru < (block_at final j).lru
later_use-lt n bs before after i j v b hi hj ne a =
    let s = touch_all bs before in
    let vs = touch_all-IsRanked n before bs v b in
    rw (touch_all-append bs before (i ∷ after)) (
      unfold touch_all in
      order_kept-All n after (lru_update s i) i j (lru_update-IsRanked n s i hi vs) a hi hj
        (touched_first n s vs i j hi hj ne))
