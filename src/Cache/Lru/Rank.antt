-- ===== src/Cache/Lru/Rank.antt =====
-- The ranks of a set are the numbers below its number of ways, each once, and stay so.
use arishem.Base.{
  ℕ, zero, suc, ◌+◌, ◌-◌, ◌^◌, ◌<◌, ◌≡◌, refl, ap, ◌∙◌, List, [], ◌∷◌, arith, ltb, leb, ◌==◌,
  if◌then◌else◌, length, set, All, All-set, All-get_or, length-set,
}
use arishem.Cache.State.{Block, block_at, new_block}
use arishem.Cache.Lru.{age_below, lru_update}

-- How many blocks have a rank.
unfoldable pub count_rank : ℕ → List Block → ℕ
count_rank r [] = 0
count_rank r (b ∷ bs) = (if b.lru == r then 1 else 0) + count_rank r bs

-- The ranks of the `n` ways are 0, …, n - 1 in some order.
pub record IsRanked (n : ℕ) (bs : List Block) : Type 0 where
  pub ways : length bs ≡ n
  pub small : n < 2 ^ 32
  pub below : All (λ b. b.lru < n) bs
  pub once : (r : ℕ) → r < n → count_rank r bs ≡ 1

abbrev pub is : ℕ → ℕ → ℕ
is a b = if a == b then 1 else 0

pub length-age_below : (t : ℕ) (bs : List Block) → length (age_below t bs) ≡ length bs
unfolding age_below
length-age_below t [] = refl
length-age_below t (b ∷ bs) = ap suc (length-age_below t bs)

-- What aging does to one block.
pub block_at-age_below :
    (t n : ℕ) (bs : List Block) (i : ℕ)
    → t < 2 ^ 32
    → i < length bs
    → (block_at (age_below t bs) i).lru
      ≡ (if ltb (block_at bs i).lru t then (block_at bs i).lru + 1 else (block_at bs i).lru)
unfolding age_below
block_at-age_below t n [] i small h = absurd (omega arith)
block_at-age_below t n (b ∷ bs) zero small h = ground arith
block_at-age_below t n (b ∷ bs) (suc i) small h = block_at-age_below t n bs i small (omega arith)

count_rank-set :
    (r : ℕ) (bs : List Block) (i : ℕ) (b : Block)
    → i < length bs
    → count_rank r (set bs i b) + is (block_at bs i).lru r ≡ count_rank r bs + is b.lru r
unfolding count_rank
count_rank-set r [] i b h = absurd (omega arith)
count_rank-set r (x ∷ xs) zero b h = ground arith
count_rank-set r (x ∷ xs) (suc i) b h = ground (arith, count_rank-set r xs i b)

-- The blocks of rank `r` after aging are those of rank `r - 1` before that were aged, and those
-- of rank `r` that were not.
count_rank-age_below :
    (r t : ℕ) (bs : List Block)
    → t < 2 ^ 32
    → count_rank r (age_below t bs)
      ≡ (if r == 0 then 0 else if leb r t then count_rank (r - 1) bs else 0)
        + (if leb t r then count_rank r bs else 0)
unfolding count_rank age_below
count_rank-age_below r t [] small = ground arith
count_rank-age_below r t (b ∷ bs) small = ground (arith, count_rank-age_below r t bs)

All-age_below :
    (t n : ℕ) (bs : List Block)
    → t < n
    → n < 2 ^ 32
    → All (λ b. b.lru < n) bs
    → All (λ b. b.lru < n) (age_below t bs)
unfolding age_below
All-age_below t n [] h k a = tt
All-age_below t n (b ∷ bs) h k a = (ground arith, All-age_below t n bs h k a.1)

-- `lru_update` of a way in range keeps the ranks of a set a permutation of the numbers below its
-- number of ways.
pub lru_update-IsRanked :
    (n : ℕ) (bs : List Block) (way : ℕ) → way < n → IsRanked n bs → IsRanked n (lru_update bs way)
unfolding lru_update
lru_update-IsRanked n bs way h v = record {
  ways = length-set aged way _ ∙ length-age_below t bs ∙ v.ways;
  small = v.small;
  below =
      All-set (λ b. b.lru < n) aged way _ (All-age_below t n bs t_lt v.small v.below) (omega arith);
  once = λ r hr. once_each r hr;
}
  where
    t : ℕ
    t = (block_at bs way).lru

    aged : List Block
    aged = age_below t bs

    t_lt : t < n
    t_lt = All-get_or (λ b. b.lru < n) bs way new_block v.below (omega (arith, v.ways))

    inside : way < length aged
    inside = omega (arith, length-age_below t bs, v.ways)

    kept : (block_at aged way).lru ≡ t
    kept =
        block_at-age_below t n bs way (omega (arith, v.small, t_lt)) (omega (arith, v.ways))
        ∙ ground arith

    once_each :
        (r : ℕ) → r < n → count_rank r (set aged way (record (block_at aged way) { lru = 0 })) ≡ 1
    once_each r hr =
        let moved = count_rank-set r aged way (record (block_at aged way) { lru = 0 }) inside in
        let before = count_rank-age_below r t bs (omega (arith, v.small, t_lt)) in
        let was = kept in ground (arith, v.once r hr, v.once (r - 1), v.once t t_lt)
