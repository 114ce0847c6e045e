-- ===== src/Prefetcher/Bop/Phase.antt =====
-- The end of a phase: the best offsets are as many candidates as the knob says, and the scores
-- start again.
use arishem.Base.{
  ℕ, zero, suc, ◌+◌, ◌≤◌, ◌<◌, ◌≡◌, refl, ap, arith, leb, ltb, false, ◌&&◌, inl, inr, Bool-cases,
  List, [], ◌∷◌, length, replicate, Returns, All, All-get_or, uint32_max, ==_refl,
}
use arishem.Base.Int.{ℤ, pos}
use arishem.Prefetcher.Bop.Best.{Picked, pick_offsets-Picked}
use arishem.Prefetcher.Bop.{
  Knobs, BoPrefetcher, best_below, pick_offsets, restart_phase, phase_end, last_max,
  check_end_of_phase,
}

length-pick_offsets :
    (candidates : List ℤ) (scores : List ℕ) (left max : ℕ)
    → length (pick_offsets candidates scores left max) ≡ left
unfolding pick_offsets
length-pick_offsets candidates scores zero max = refl
length-pick_offsets candidates scores (suc left) max =
    let (curr_max, max_idx) = best_below max scores 0 0 0 in
    ap suc (length-pick_offsets candidates scores left curr_max)

-- The index that the inner loop finds is one of the scores', or the first.
best_below-lt :
    (max : ℕ) (scores : List ℕ) (i curr_max max_idx n : ℕ)
    → i + length scores ≤ n
    → max_idx < n
    → (best_below max scores i curr_max max_idx).1 < n
unfolding best_below
best_below-lt max [] i curr_max max_idx n h lt = lt
best_below-lt max (score ∷ scores) i curr_max max_idx n h lt =
    let better = leb curr_max score && ltb score max in
    elim (Bool-cases better) [
      | inl y ↦
          rw (y, best_below)
            (best_below-lt max scores (i + 1) score i n (omega arith) (omega arith))
      | inr z ↦
          rw (z, best_below) (best_below-lt max scores (i + 1) curr_max max_idx n (omega arith) lt)
    ]

-- Every property of all candidates holds of the picked offsets.
All-pick_offsets {κ} :
    (P : ℤ → Type κ) (candidates : List ℤ) (scores : List ℕ) (left max : ℕ)
    → All P candidates
    → 0 < length candidates
    → length scores ≡ length candidates
    → All P (pick_offsets candidates scores left max)
unfolding pick_offsets
All-pick_offsets P candidates scores zero max a some_left same = tt
All-pick_offsets P candidates scores (suc left) max a some_left same =
    let best = best_below max scores 0 0 0 in
    let lt = best_below-lt max scores 0 0 0 (length candidates) (omega arith) some_left in
    (
      All-get_or P candidates best.1 (pos 0) a lt,
      All-pick_offsets P candidates scores left best.0 a some_left same,
    )

pub record PhaseEnded (k : Knobs) (s s' : BoPrefetcher) : Type 1 where
  pub top : length s'.best_offsets ≡ k.top_n
  pub by_score : Picked k.candidates s.scores uint32_max s'.best_offsets
  pub from_candidates : (P : ℤ → Type 0) → All P k.candidates → All P s'.best_offsets
  pub restarted : s'.scores ≡ replicate (length k.candidates) 0
  pub round : s'.round_counter ≡ 0
  pub candidate : s'.candidate_ptr ≡ 0
  pub same_rr : s'.rr ≡ s.rr
  pub same_buffer : s'.pref_buffer ≡ s.pref_buffer

pub phase_end_lem :
    (k : Knobs) (s : BoPrefetcher)
    → 0 < length k.candidates
    → length s.scores ≡ length k.candidates
    → Returns (phase_end k s) (PhaseEnded k s)
unfolding phase_end restart_phase
phase_end_lem k s some_left same =
    let e = length-pick_offsets k.candidates s.scores k.top_n uint32_max in
    (
      restart_phase k s,
      rw (e, ==_refl k.top_n) refl,
      record {
        top = e;
        by_score = pick_offsets-Picked k.candidates s.scores k.top_n uint32_max;
        from_candidates =
            λ P a. All-pick_offsets P k.candidates s.scores k.top_n uint32_max a some_left same;
        restarted = refl;
        round = refl;
        candidate = refl;
        same_rr = refl;
        same_buffer = refl;
      },
    )

last_max-lt :
    (scores : List ℕ) (i max_score n : ℕ)
    → i + length scores ≤ n
    → max_score < n
    → last_max scores i max_score < n
unfolding last_max
last_max-lt [] i max_score n h lt = lt
last_max-lt (score ∷ scores) i max_score n h lt = elim (Bool-cases (leb max_score score)) [
  | inl y ↦ rw (y, last_max) (last_max-lt scores (i + 1) i n (omega arith) (omega arith))
  | inr z ↦ rw (z, last_max) (last_max-lt scores (i + 1) max_score n (omega arith) lt)
]

-- However high the scores are, `check_end_of_phase` does not end a phase before its last round when
-- the limit `max_score` is at least the number of candidates (and not 0): what it compares with
-- the limit is an index.
pub check_end_of_phase-index :
    (k : Knobs) (s : BoPrefetcher)
    → s.round_counter < k.max_rounds
    → length s.scores ≤ k.max_score
    → 0 < k.max_score
    → check_end_of_phase k s ≡ (s, false)
unfolding check_end_of_phase
check_end_of_phase-index k s early few positive =
    let lt = last_max-lt s.scores 0 0 k.max_score (omega arith) positive in
    let a : leb k.max_rounds s.round_counter ≡ false = ground arith in
    let b : leb k.max_score (last_max s.scores 0 0) ≡ false = ground arith in rw (a, b) refl
