-- ===== src/Cache/Lru/Victim.antt =====
-- `lru_victim` on a ranked set never reaches its assertion: it picks an invalid way if there is
-- one, and the way of the last rank otherwise.
use arishem.Base.{
  ℕ, zero, suc, ◌+◌, ◌-◌, ◌≤◌, ◌<◌, ◌≡◌, ◌≢◌, List, [], ◌∷◌, arith, ◌==◌, length, inl, inr, Bool,
  true, false, Bool-cases, Option-cases, none, some, Returns, ◌⊎◌,
}
use arishem.Cache.State.{Block, block_at}
use arishem.Cache.Lru.{find_way, is_invalid, has_lru, lru_victim}
use arishem.Cache.Lru.Rank.{count_rank, IsRanked}

-- A way that the loop returns passes the test, is in range, and is the first to pass.
pub record IsFirst (test : Block → Bool) (bs : List Block) (start stop w : ℕ) : Type 0 where
  pub from : start ≤ w
  pub to : w < stop
  pub passes : test (block_at bs w) ≡ true
  pub first : (i : ℕ) → start ≤ i → i < w → test (block_at bs i) ≡ false

pub find_way-some :
    (test : Block → Bool) (bs : List Block) (way left w : ℕ)
    → find_way test bs way left ≡ some w
    → IsFirst test bs way (way + left) w
unfolding find_way
find_way-some test bs way zero w h = absurd (cc)
find_way-some test bs way (suc left) w h = elim (Bool-cases (test (block_at bs way))) [
  | inl y ↦
      let e : way ≡ w = ground arith in
      record {
        from = omega arith;
        to = omega arith;
        passes = rw (← e) y;
        first = λ i a b. absurd (omega arith);
      }
  | inr z ↦
      let t = find_way-some test bs (way + 1) left w (rw z at h) in
      record {
        from = omega (arith, t.from);
        to = omega (arith, t.to);
        passes = t.passes;
        first = λ i a b. elim (Bool-cases (way == i)) [
          | inl e ↦ let e' : way ≡ i = ground arith in rw (← e') z
          | inr ne ↦ t.first i (ground arith) b
        ];
      }
]

pub find_way-none :
    (test : Block → Bool) (bs : List Block) (way left i : ℕ)
    → find_way test bs way left ≡ none
    → way ≤ i
    → i < way + left
    → test (block_at bs i) ≡ false
unfolding find_way
find_way-none test bs way zero i h a b = absurd (omega arith)
find_way-none test bs way (suc left) i h a b = elim (Bool-cases (test (block_at bs way))) [
  | inl y ↦ absurd (cc (h, y))
  | inr z ↦ elim (Bool-cases (way == i)) [
    | inl e ↦ let e' : way ≡ i = ground arith in rw (← e') z
    | inr ne ↦ find_way-none test bs (way + 1) left i (rw z at h) (ground arith) (omega arith)
  ]
]

-- Some way has a rank that is counted.
way_of_rank :
    (r : ℕ) (bs : List Block)
    → 0 < count_rank r bs
    → (w : ℕ) × (w < length bs) × ((block_at bs w).lru ≡ r)
unfolding count_rank
way_of_rank r [] h = absurd (omega arith)
way_of_rank r (b ∷ bs) h = elim (Bool-cases (b.lru == r)) [
  | inl y ↦ (0, omega arith, ground arith)
  | inr z ↦ let (w, lt, e) = way_of_rank r bs (ground arith) in (suc w, omega arith, e)
]

-- What the victim of a set is: the first invalid way if there is one, else the way of the last
-- rank.
abbrev pub IsVictim : ℕ → List Block → ℕ → Type 0
IsVictim n bs w =
    (((block_at bs w).valid ≡ 0) × ((i : ℕ) → i < w → (block_at bs i).valid ≢ 0))
    ⊎ (((i : ℕ) → i < n → (block_at bs i).valid ≢ 0) × ((block_at bs w).lru + 1 ≡ n))

-- `lru_victim` returns for every ranked set of at least one way: its result is the first invalid
-- way or, when all ways are valid, the way of the last rank.
pub lru_victim_lem :
    (n : ℕ) (bs : List Block)
    → 0 < n
    → IsRanked n bs
    → Returns (lru_victim n bs) λ w. (w < n) × IsVictim n bs w
unfolding lru_victim
lru_victim_lem n bs pos v = elim (Option-cases (find_way is_invalid bs 0 n)) [
  | inr (w, e) ↦
      let t = find_way-some is_invalid bs 0 n w e in
      (
        w,
        rw (e, lru_victim),
        (
          omega (arith, t.to),
          inl (
            ground (arith, t.passes),
            λ i hi. let z = t.first i (omega arith) hi in ground arith,
          ),
        ),
      )
  | inl all ↦ elim (Option-cases (find_way (has_lru (n - 1)) bs 0 n)) [
    | inr (w, e) ↦
        let t = find_way-some (has_lru (n - 1)) bs 0 n w e in
        (
          w,
          rw (all, lru_victim, e),
          (
            omega (arith, t.to),
            inr (
              λ i hi. let z = find_way-none is_invalid bs 0 n i all in ground arith,
              ground (arith, t.passes),
            ),
          ),
        )
    | inl none_last ↦
        let (w, lt, e) = way_of_rank (n - 1) bs (omega (arith, v.once (n - 1))) in
        let z =
          find_way-none (has_lru (n - 1)) bs 0 n w none_last (omega arith)
            (omega (arith, v.ways)) in
        absurd (ground arith)
  ]
]
