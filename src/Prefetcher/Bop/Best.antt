-- ===== src/Prefetcher/Bop/Best.antt =====
-- The inner loop of `phase_end`: the score that it finds is the greatest below its limit.
use arishem.Base.{
  ℕ, zero, suc, ◌+◌, ◌≤◌, ◌<◌, ◌≡◌, ◌≢◌, refl, arith, leb, ltb, ◌&&◌, inl, inr, Bool-cases, List,
  [], ◌∷◌, length, get_or,
}
use arishem.Base.Int.{ℤ, pos}
use arishem.Prefetcher.Bop.{best_below, pick_offsets}

abbrev pub score_of : List ℕ → ℕ → ℕ
score_of scores j = get_or scores j 0

-- Among the scores below `max` the greatest is `best`, and the last candidate that has it is `idx`;
-- or no score is below `max`, and the first candidate is taken.
pub data IsBest (scores : List ℕ) (max best idx : ℕ) : Type 0 where
  found :
      idx < length scores
      → score_of scores idx ≡ best
      → best < max
      → ((j : ℕ) → j < length scores → score_of scores j < max → score_of scores j ≤ best)
      → ((j : ℕ) → idx < j → j < length scores → score_of scores j ≢ best)
      → IsBest scores max best idx
  nothing :
      ((j : ℕ) → j < length scores → max ≤ score_of scores j)
      → best ≡ 0
      → idx ≡ 0
      → IsBest scores max best idx

-- Each offset is the candidate of the best score below that of the offset before it.
abbrev pub Picked : List ℤ → List ℕ → ℕ → List ℤ → Type 0
Picked candidates scores max [] = Unit
Picked candidates scores max (offset ∷ offsets) =
    (best : ℕ) × (idx : ℕ) × IsBest scores max best idx
    × (offset ≡ get_or candidates idx (pos 0))
    × Picked candidates scores best offsets

-- What the loop over the scores from place `i` on leaves of the best score and its place.
data Scanned (max : ℕ) (scores : List ℕ) (i curr_max max_idx best idx : ℕ) : Type 0 where
  kept :
      best ≡ curr_max
      → idx ≡ max_idx
      → ((j : ℕ) → j < length scores → score_of scores j < max → score_of scores j < curr_max)
      → Scanned max scores i curr_max max_idx best idx
  better :
      (k : ℕ)
      → idx ≡ i + k
      → k < length scores
      → score_of scores k ≡ best
      → best < max
      → curr_max ≤ best
      → ((j : ℕ) → j < length scores → score_of scores j < max → score_of scores j ≤ best)
      → ((j : ℕ) → k < j → j < length scores → score_of scores j ≢ best)
      → Scanned max scores i curr_max max_idx best idx

first_and_rest : (P : ℕ → Type 0) → P 0 → ((j : ℕ) → P (suc j)) → (j : ℕ) → P j
first_and_rest P h k zero = h
first_and_rest P h k (suc j) = k j

module _ (max score : ℕ) (scores : List ℕ) (i curr_max max_idx best idx : ℕ) where
  taken :
      curr_max ≤ score
      → score < max
      → Scanned max scores (i + 1) score i best idx
      → Scanned max (score ∷ scores) i curr_max max_idx best idx
  taken le lt (kept e place below) =
      better 0 (omega arith) (omega arith) (omega arith) (omega arith) (omega arith)
        (first_and_rest _ (λ a b. omega arith) λ j a b. omega (arith, below j (omega arith) b))
        (first_and_rest _ (λ a b. absurd (omega arith))
          λ j a b same. omega (arith, below j (omega arith) (omega arith)))
  taken le lt (better k place inside at limit more all last) =
      better (suc k) (omega arith) (omega arith) at limit (omega arith)
        (first_and_rest _ (λ a b. omega arith) λ j a b. all j (omega arith) b)
        (first_and_rest _ (λ a b. absurd (omega arith)) λ j a b. last j (omega arith) (omega arith))

  passed :
      (score < max → score < curr_max)
      → Scanned max scores (i + 1) curr_max max_idx best idx
      → Scanned max (score ∷ scores) i curr_max max_idx best idx
  passed lower (kept e place below) =
      kept e place (first_and_rest _ (λ a b. lower b) λ j a b. below j (omega arith) b)
  passed lower (better k place inside at limit more all last) =
      better (suc k) (omega arith) (omega arith) at limit more
        (first_and_rest _ (λ a b. omega (arith, lower b)) λ j a b. all j (omega arith) b)
        (first_and_rest _ (λ a b. absurd (omega arith)) λ j a b. last j (omega arith) (omega arith))

best_below-Scanned :
    (max : ℕ) (scores : List ℕ) (i curr_max max_idx : ℕ)
    → Scanned max scores i curr_max max_idx
        (best_below max scores i curr_max max_idx).0
        (best_below max scores i curr_max max_idx).1
unfolding best_below
best_below-Scanned max [] i curr_max max_idx = kept refl refl λ j a b. absurd (omega arith)
best_below-Scanned max (score ∷ scores) i curr_max max_idx =
    elim (Bool-cases (leb curr_max score && ltb score max)) [
      | inl y ↦
          rw (y, best_below)
            (taken max score scores i curr_max max_idx _ _ (ground arith) (ground arith)
              (best_below-Scanned max scores (i + 1) score i))
      | inr z ↦
          rw (z, best_below)
            (passed max score scores i curr_max max_idx _ _ (λ lt. ground arith)
              (best_below-Scanned max scores (i + 1) curr_max max_idx))
    ]

Scanned-IsBest :
    (max : ℕ) (scores : List ℕ) (best idx : ℕ)
    → Scanned max scores 0 0 0 best idx
    → IsBest scores max best idx
Scanned-IsBest max scores best idx (kept e place below) =
    nothing
      (λ j a. elim (Bool-cases (ltb (score_of scores j) max)) [
        | inl y ↦ absurd (omega (arith, below j a (ground arith)))
        | inr z ↦ ground arith
      ])
      e place
Scanned-IsBest max scores best idx (better k place inside at limit more all last) =
    let same : k ≡ idx = omega arith in
    found (omega arith) (rw same at at) limit all λ j a. last j (omega arith)

pub pick_offsets-Picked :
    (candidates : List ℤ) (scores : List ℕ) (left max : ℕ)
    → Picked candidates scores max (pick_offsets candidates scores left max)
unfolding pick_offsets
pick_offsets-Picked candidates scores zero max = tt
pick_offsets-Picked candidates scores (suc left) max =
    let (best, idx) = best_below max scores 0 0 0 in
    (
      best,
      idx,
      Scanned-IsBest max scores best idx (best_below-Scanned max scores 0 0 0),
      refl,
      pick_offsets-Picked candidates scores left best,
    )
