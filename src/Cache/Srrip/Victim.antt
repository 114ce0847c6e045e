-- ===== src/Cache/Srrip/Victim.antt =====
-- The search for a victim ends, and its result is the first way of the farthest predicted
-- re-reference.
use arishem.Base.{
  ℕ, zero, suc, ◌+◌, ◌≤◌, ◌<◌, ◌≡◌, ◌≢◌, refl, ap, ◌∙◌, List, [], ◌∷◌, none, some, ◌==◌, arith,
  length, set, inl, inr, Bool-cases, Option-cases, inc32, replicate, length-replicate,
  get_or-set_self, get_or-set_ne,
}
use arishem.Cache.State.{llc_way}
use arishem.Cache.Srrip.{
  max_rrpv, llc_set, llc_initialize_replacement, Values, row_of, value_at, farthest, age_all,
  victim_rounds, llc_find_victim,
}

-- A set has a value for each way, none above `max_rrpv`.
pub record IsRow (row : List ℕ) : Type 0 where
  pub ways : length row ≡ llc_way
  pub bounded : (i : ℕ) → i < llc_way → value_at row i ≤ max_rrpv

-- The victim and the values that the search leaves: all values have gone up by the same number,
-- and the victim's has reached `max_rrpv`; before, it was the first of the greatest ones.
pub record Victim (row row' : List ℕ) (way : ℕ) : Type 0 where
  pub in_range : way < llc_way
  pub rounds : ℕ
  pub reached : value_at row way + rounds ≡ max_rrpv
  pub aged : (i : ℕ) → i < llc_way → value_at row' i ≡ value_at row i + rounds
  pub greatest : (i : ℕ) → i < llc_way → value_at row i ≤ value_at row way
  pub first : (i : ℕ) → i < way → value_at row i < value_at row way
  pub valid : IsRow row'

record IsFarthest (row : List ℕ) (start stop way : ℕ) : Type 0 where
  from : start ≤ way
  to : way < stop
  at_max : value_at row way ≡ max_rrpv
  before : (i : ℕ) → start ≤ i → i < way → value_at row i ≢ max_rrpv

farthest-some :
    (row : List ℕ) (way left w : ℕ)
    → farthest row way left ≡ some w
    → IsFarthest row way (way + left) w
unfolding farthest
farthest-some row way zero w h = absurd (cc (h))
farthest-some row way (suc left) w h = elim (Bool-cases (value_at row way == max_rrpv)) [
  | inl y ↦
      let e : way ≡ w = ground arith in
      record {
        from = omega arith;
        to = omega arith;
        at_max = rw (← e) (ground arith);
        before = λ i a b. absurd (omega arith);
      }
  | inr z ↦
      let t = farthest-some row (way + 1) left w (rw z at h) in
      record {
        from = omega (arith, t.from);
        to = omega (arith, t.to);
        at_max = t.at_max;
        before = λ i a b. elim (Bool-cases (way == i)) [
          | inl e ↦ let e' : way ≡ i = ground arith in rw (← e') (ground arith)
          | inr ne ↦ t.before i (ground arith) b
        ];
      }
]

farthest-none :
    (row : List ℕ) (way left i : ℕ)
    → farthest row way left ≡ none
    → way ≤ i
    → i < way + left
    → value_at row i ≢ max_rrpv
unfolding farthest
farthest-none row way zero i h a b = absurd (omega arith)
farthest-none row way (suc left) i h a b = elim (Bool-cases (value_at row way == max_rrpv)) [
  | inl y ↦ absurd (cc (h, y))
  | inr z ↦ elim (Bool-cases (way == i)) [
    | inl e ↦ let e' : way ≡ i = ground arith in rw (← e') (ground arith)
    | inr ne ↦ farthest-none row (way + 1) left i (rw z at h) (ground arith) (omega arith)
  ]
]

length-age_all : (row : List ℕ) → length (age_all row) ≡ length row
unfolding age_all
length-age_all [] = refl
length-age_all (x ∷ row) = ap suc (length-age_all row)

value_at-age_all :
    (row : List ℕ) (i : ℕ) → i < length row → value_at (age_all row) i ≡ inc32 (value_at row i)
unfolding age_all
value_at-age_all [] i h = absurd (omega arith)
value_at-age_all (x ∷ row) zero h = refl
value_at-age_all (x ∷ row) (suc i) h = value_at-age_all row i (omega arith)

-- With no way at the maximum every value goes up by one.
one_older :
    (row : List ℕ) (i : ℕ)
    → IsRow row
    → farthest row 0 llc_way ≡ none
    → i < llc_way
    → (value_at (age_all row) i ≡ value_at row i + 1) × (value_at row i < max_rrpv)
one_older row i v h lt =
    let different = farthest-none row 0 llc_way i h (omega arith) lt in
    let below : value_at row i < max_rrpv = ground (arith, v.bounded i lt) in
    let aged = value_at-age_all row i (omega (arith, v.ways)) in (omega arith, below)

age_all-IsRow : (row : List ℕ) → IsRow row → farthest row 0 llc_way ≡ none → IsRow (age_all row)
age_all-IsRow row v h = record {
  ways = length-age_all row ∙ v.ways;
  bounded = λ i lt. let t = one_older row i v h lt in omega arith;
}

found_now : (row : List ℕ) (way : ℕ) → IsRow row → IsFarthest row 0 llc_way way → Victim row row way
found_now row way v t = record {
  in_range = t.to;
  rounds = 0;
  reached = omega (arith, t.at_max);
  aged = λ i lt. omega arith;
  greatest = λ i lt. omega (arith, v.bounded i lt, t.at_max);
  first = λ i lt.
      let different = t.before i (omega arith) lt in
      ground (arith, v.bounded i (omega (arith, t.to)), t.at_max);
  valid = v;
}

found_later :
    (row row' : List ℕ) (way : ℕ)
    → IsRow row
    → farthest row 0 llc_way ≡ none
    → Victim (age_all row) row' way
    → Victim row row' way
found_later row row' way v h t =
    let mine = one_older row way v h t.in_range in
    record {
      in_range = t.in_range;
      rounds = t.rounds + 1;
      reached = omega (arith, t.reached, mine.0);
      aged = λ i lt. let other = one_older row i v h lt in omega (arith, t.aged i lt, other.0);
      greatest = λ i lt.
          let other = one_older row i v h lt in omega (arith, t.greatest i lt, other.0, mine.0);
      first = λ i lt.
          let other = one_older row i v h (omega (arith, t.in_range)) in
          omega (arith, t.first i lt, other.0, mine.0);
      valid = t.valid;
    }

-- Values that are at least `least` need no more than `max_rrpv - least` rounds of ageing.
victim_rounds-Victim :
    (fuel least : ℕ) (row : List ℕ)
    → IsRow row
    → ((i : ℕ) → i < llc_way → least ≤ value_at row i)
    → max_rrpv < fuel + least
    → (found : ℕ × List ℕ) × (victim_rounds fuel row ≡ some found) × Victim row found.1 found.0
unfolding victim_rounds
victim_rounds-Victim zero least row v low enough =
    absurd (omega (arith, v.bounded 0 (omega arith), low 0 (omega arith)))
victim_rounds-Victim (suc fuel) least row v low enough =
    elim (Option-cases (farthest row 0 llc_way)) [
      | inr (way, e) ↦ (
        (way, row),
        rw (e, victim_rounds) refl,
        found_now row way v (farthest-some row 0 llc_way way e),
      )
      | inl e ↦
          let (found, same, t) =
            victim_rounds-Victim fuel (least + 1) (age_all row) (age_all-IsRow row v e)
              (λ i lt. let a = one_older row i v e lt in omega (arith, low i lt, a.0))
              (omega arith) in
          (found, rw (e, victim_rounds) same, found_later row found.1 found.0 v e t)
    ]

row_of-replicate : (n i : ℕ) (row : List ℕ) → i < n → row_of (replicate n row) i ≡ row
row_of-replicate zero i row h = absurd (omega arith)
row_of-replicate (suc n) zero row h = refl
row_of-replicate (suc n) (suc i) row h = row_of-replicate n i row (omega arith)

value_at-replicate : (n i v : ℕ) → value_at (replicate n v) i ≤ v
value_at-replicate zero i v = omega arith
value_at-replicate (suc n) zero v = omega arith
value_at-replicate (suc n) (suc i) v = value_at-replicate n i v

-- Every set starts valid.
pub llc_initialize_replacement-IsRow :
    (index : ℕ) → index < llc_set → IsRow (row_of llc_initialize_replacement index)
unfolding llc_initialize_replacement
llc_initialize_replacement-IsRow index lt =
    rw (row_of-replicate llc_set index (replicate llc_way max_rrpv) lt) record {
      ways = length-replicate llc_way max_rrpv;
      bounded = λ i h. value_at-replicate llc_way i max_rrpv;
    }

-- The search for a victim in a set that has a value for each way, none above the maximum, ends. It
-- returns the first way with the greatest value of the set; all values of the set have gone up by
-- what that one lacked to the maximum, and the other sets are as before.
pub llc_find_victim_lem :
    (rrpv : Values) (index : ℕ)
    → index < length rrpv
    → IsRow (row_of rrpv index)
    → (found : ℕ × Values) × (llc_find_victim rrpv index ≡ some found)
      × Victim (row_of rrpv index) (row_of found.1 index) found.0
      × ((j : ℕ) → index ≢ j → row_of found.1 j ≡ row_of rrpv j)
unfolding llc_find_victim
llc_find_victim_lem rrpv index lt v =
    let ((way, row), e, t) =
      victim_rounds-Victim (max_rrpv + 1) 0 (row_of rrpv index) v (λ i h. omega arith)
        (omega arith) in
    let same = get_or-set_self rrpv index row [] lt in
    (
      (way, set rrpv index row),
      rw (e, llc_find_victim) refl,
      rw same t,
      λ j ne. get_or-set_ne rrpv index j row [] ne,
    )
