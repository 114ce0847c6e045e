-- ===== src/FastSet/Search.antt =====
-- `search` finds exactly the elements of a set, on each of its four branches.
use mathlib.Core.Path.{subst}
use arishem.Base.{
  ℕ, zero, suc, ◌+◌, ◌-◌, ◌/◌, ◌<◌, ◌≤◌, ◌≡◌, refl, false, List, [], ◌∷◌, ltb, leb, ◌==◌, arith,
  length, get_or, inl, inr, Bool-cases, sym,
}
use arishem.FastSet.{
  FastSet, small, bitset, search_small_linear, search_between, search_small, search, smaller_size,
  max_size,
}
use arishem.FastSet.Order.{
  contains, member, IsSorted, IsValid, contains-of_lt, contains-get_or, index_of_contains,
  get_or_mono, All-lt_trans,
}

search_small_linear-contains :
    (xs : List ℕ) (x : ℕ) → IsSorted xs → search_small_linear xs x ≡ contains xs x
unfolding search_small_linear contains
search_small_linear-contains [] x h = refl
search_small_linear-contains (y ∷ ys) x h = elim (Bool-cases (ltb x y)) [
  | inl e ↦ let later = contains-of_lt x ys (All-lt_trans x y ys (ground arith) h.0) in ground arith
  | inr e ↦ ground (arith, search_small_linear-contains ys x h.1)
]

module _ (values : List ℕ) (x : ℕ) (sorted : IsSorted values) where
  abbrev at : ℕ → ℕ
  at i = get_or values i 0

  -- The value can stand only between the two bounds.
  record Between (begin stop : ℕ) : Type 0 where
    in_range : stop ≤ length values
    before : (i : ℕ) → i < begin → at i < x
    after : (i : ℕ) → stop ≤ i → i < length values → x < at i

  outside : (begin stop : ℕ) → stop ≤ begin → Between begin stop → contains values x ≡ false
  outside begin stop h b = elim (Bool-cases (contains values x)) [
    | inr e ↦ e
    | inl e ↦
        let (i, lt, g) = index_of_contains values x e in
        elim (Bool-cases (ltb i begin)) [
          | inl t ↦ absurd (omega (arith, b.before i (ground arith)))
          | inr t ↦ absurd (omega (arith, b.after i (ground arith) lt))
        ]
  ]

  keep_below : (begin stop m : ℕ) → Between begin stop → m < stop → x < at m → Between begin m
  keep_below begin stop m b lt below = record {
    in_range = omega (arith, b.in_range);
    before = b.before;
    after = λ i le il. elim (Bool-cases (m == i)) [
      | inl e ↦ let e' : m ≡ i = ground arith in subst (λ k. x < at k) e' below
      | inr e ↦ omega (arith, get_or_mono values m i sorted (ground arith) il)
    ];
  }

  keep_above : (begin stop m : ℕ) → Between begin stop → m < stop → at m < x → Between (m + 1) stop
  keep_above begin stop m b lt above = record {
    in_range = b.in_range;
    before = λ i il. elim (Bool-cases (i == m)) [
      | inl e ↦ let e' : m ≡ i = ground arith in subst (λ k. at k < x) e' above
      | inr e ↦
          omega (arith, get_or_mono values i m sorted (ground arith) (omega (arith, b.in_range)))
    ];
    after = b.after;
  }

  search_between-contains :
      (fuel begin stop : ℕ)
      → begin < stop
      → stop ≤ begin + fuel
      → Between begin stop
      → search_between fuel values begin stop x ≡ contains values x
  unfolding search_between
  search_between-contains zero begin stop lt enough b = absurd (omega arith)
  search_between-contains (suc fuel) begin stop lt enough b =
      let m : ℕ = (begin + stop - 1) / 2 in
      let inside : (begin ≤ m) × (m < stop) = omega arith in
      elim (Bool-cases (ltb x (at m))) [
        | inl below ↦
            let next = keep_below begin stop m b inside.1 (ground arith) in
            elim (Bool-cases (leb m begin)) [
              | inl done ↦ rw (below, done, outside begin m (ground arith) next)
              | inr more ↦
                  rw (below, more)
                    (search_between-contains fuel begin m (ground arith) (omega arith) next)
            ]
        | inr not_below ↦ elim (Bool-cases (ltb (at m) x)) [
          | inl above ↦
              let next = keep_above begin stop m b inside.1 (ground arith) in
              elim (Bool-cases (leb stop (m + 1))) [
                | inl done ↦ rw (not_below, above, done, outside (m + 1) stop (ground arith) next)
                | inr more ↦
                    rw (not_below, above, more)
                      (search_between-contains fuel (m + 1) stop (ground arith) (omega arith) next)
              ]
          | inr equal ↦
              let e : at m ≡ x = ground arith in
              let found = contains-get_or values m (omega (arith, b.in_range)) in
              rw (not_below, equal) (sym (rw e at found))
        ]
      ]

  pub search_small-contains : search_small values x ≡ contains values x
  unfolding search_small contains
  search_small-contains = elim (Bool-cases (length values == 0)) [
    | inl e ↦ rw e (sym (outside 0 0 (omega arith) (empty_range (ground arith))))
    | inr e ↦ elim (Bool-cases (ltb (length values) smaller_size)) [
      | inl few ↦ rw (e, few) (search_small_linear-contains values x sorted)
      | inr many ↦
          rw (e, many)
            (search_between-contains (length values) 0 (length values) (ground arith) (omega arith)
              whole)
    ]
  ]
    where
      whole : Between 0 (length values)
      whole = record {
        in_range = omega arith;
        before = λ i h. absurd (omega arith);
        after = λ i h k. absurd (omega arith);
      }

      empty_range : length values ≡ 0 → Between 0 0
      empty_range e = record {
        in_range = omega arith;
        before = λ i h. absurd (omega arith);
        after = λ i h k. absurd (omega arith);
      }

singleton :
    (values : List ℕ) (x : ℕ) → length values ≡ 1 → (get_or values 0 0 == x) ≡ contains values x
unfolding contains
singleton [] x h = absurd (omega arith)
singleton (y ∷ []) x h = ground arith
singleton (y ∷ z ∷ ys) x h = absurd (omega arith)

nothing : (values : List ℕ) (x : ℕ) → length values ≡ 0 → contains values x ≡ false
unfolding contains
nothing [] x h = refl
nothing (y ∷ ys) x h = absurd (omega arith)

-- On a valid set `search` of a value below MAX_SIZE is membership, whatever the size: empty, one
-- value, linear, binary, bits.
pub search-member : (s : FastSet) (x : ℕ) → IsValid s → x < max_size → search s x ≡ member s x
unfolding search member
search-member (small values) x valid below = elim (Bool-cases (length values == 0)) [
  | inl e ↦ rw e (sym (nothing values x (ground arith)))
  | inr more ↦ elim (Bool-cases (length values == 1)) [
    | inl e ↦ rw (more, e) (singleton values x (ground arith))
    | inr many ↦ rw (more, many) (search_small-contains values x valid.0)
  ]
]
search-member (bitset bits) x valid below = refl
