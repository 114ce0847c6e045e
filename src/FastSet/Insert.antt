-- ===== src/FastSet/Insert.antt =====
-- `insert` and `join`: order and bounds are kept, through the switch to a bit set as well, and the
-- elements are those of the abstract operation.
use arishem.Base.{
  ℕ, ◌+◌, ◌/◌, ◌<◌, ◌≤◌, ◌≡◌, refl, false, ◌||◌, List, [], ◌∷◌, ltb, ◌==◌, arith, ap, length, inl,
  inr, Bool-cases, All, ◌∙◌,
}
use arishem.FastSet.{
  FastSet, small, bitset, small_size, getbit, insert_small, smalltobit, insert, insert_all, join,
  max_size,
}
use arishem.FastSet.Order.{contains, member, IsSorted, IsValid, All-lt_trans}
use arishem.FastSet.BitArray.{
  length-setbit, getbit-setbit, length-smalltobit, getbit-smalltobit, length-or_words,
  getbit-or_words,
}

All-insert_small :
    (a : ℕ) (ys : List ℕ) (x : ℕ)
    → a < x
    → All (λ y. a < y) ys
    → All (λ y. a < y) (insert_small ys x)
unfolding insert_small
All-insert_small a [] x h k = (h, tt)
All-insert_small a (y ∷ ys) x h k = ground (arith, All-insert_small a ys x h k.1)

insert_small-IsSorted : (ys : List ℕ) (x : ℕ) → IsSorted ys → IsSorted (insert_small ys x)
unfolding insert_small
insert_small-IsSorted [] x h = (tt, tt)
insert_small-IsSorted (y ∷ ys) x h = elim (Bool-cases (y == x)) [
  | inl e ↦ rw e h
  | inr ne ↦ elim (Bool-cases (ltb x y)) [
    | inl lt ↦ rw (ne, lt) (((ground arith), All-lt_trans x y ys (ground arith) h.0), h)
    | inr ge ↦
        rw (ne, ge) (All-insert_small y ys x (ground arith) h.0, insert_small-IsSorted ys x h.1)
  ]
]

contains-insert_small :
    (ys : List ℕ) (x z : ℕ) → contains (insert_small ys x) z ≡ ((x == z) || contains ys z)
unfolding insert_small contains
contains-insert_small [] x z = refl
contains-insert_small (y ∷ ys) x z = ground (arith, contains-insert_small ys x z)

length-insert_small : (ys : List ℕ) (x : ℕ) → length (insert_small ys x) ≤ length ys + 1
unfolding insert_small
length-insert_small [] x = omega arith
length-insert_small (y ∷ ys) x = ground (arith, length-insert_small ys x)

All-insert_small_below :
    (n : ℕ) (ys : List ℕ) (x : ℕ)
    → x < n
    → All (λ y. y < n) ys
    → All (λ y. y < n) (insert_small ys x)
unfolding insert_small
All-insert_small_below n [] x h k = (h, tt)
All-insert_small_below n (y ∷ ys) x h k = ground (arith, All-insert_small_below n ys x h k.1)

contains-nil : (ys : List ℕ) (z : ℕ) → length ys ≡ 0 → contains ys z ≡ false
unfolding contains
contains-nil [] z h = refl
contains-nil (y ∷ ys) z h = absurd (omega arith)

-- After `insert` of a value below MAX_SIZE a valid set holds that value and what it held before.
pub member-insert :
    (s : FastSet) (x z : ℕ)
    → IsValid s
    → x < max_size
    → member (insert s x) z ≡ ((x == z) || member s z)
unfolding insert member contains
member-insert (small values) x z valid below = elim (Bool-cases (length values == 0)) [
  | inl e ↦ rw e (rw (contains-nil values z (ground arith)))
  | inr more ↦ elim (Bool-cases (length (insert_small values x) == small_size)) [
    | inl full ↦
        rw (more, full)
          (getbit-smalltobit (insert_small values x) z
              (All-insert_small_below max_size values x below valid.2)
            ∙ contains-insert_small values x z)
    | inr room ↦ rw (more, room) (contains-insert_small values x z)
  ]
]
member-insert (bitset bits) x z valid below = getbit-setbit bits x z valid below

-- `insert` keeps a valid set valid: the small array stays sorted and below its size.
pub insert-IsValid : (s : FastSet) (x : ℕ) → IsValid s → x < max_size → IsValid (insert s x)
unfolding insert
insert-IsValid (small values) x valid below = elim (Bool-cases (length values == 0)) [
  | inl e ↦ rw e ((tt, tt), omega arith, (below, tt))
  | inr more ↦ elim (Bool-cases (length (insert_small values x) == small_size)) [
    | inl full ↦ rw (more, full) (length-smalltobit (insert_small values x))
    | inr room ↦
        rw (more, room)
          (
            insert_small-IsSorted values x valid.0,
            ground (arith, length-insert_small values x, valid.1),
            All-insert_small_below max_size values x below valid.2,
          )
  ]
]
insert-IsValid (bitset bits) x valid below = length-setbit bits x ∙ valid

pub insert_all-IsValid :
    (s : FastSet) (xs : List ℕ) → IsValid s → All (λ y. y < max_size) xs → IsValid (insert_all s xs)
unfolding insert_all
insert_all-IsValid s [] h below = h
insert_all-IsValid s (x ∷ xs) h below =
    insert_all-IsValid (insert s x) xs (insert-IsValid s x h below.0) below.1

member-insert_all :
    (s : FastSet) (xs : List ℕ) (z : ℕ)
    → IsValid s
    → All (λ y. y < max_size) xs
    → member (insert_all s xs) z ≡ (member s z || contains xs z)
unfolding insert_all contains
member-insert_all s [] z valid below = ground arith
member-insert_all s (x ∷ xs) z valid below = ground (
  arith,
  member-insert_all (insert s x) xs z (insert-IsValid s x valid below.0) below.1,
  member-insert s x z valid below.0,
)

-- `join` keeps the representation valid.
pub join-IsValid : (s o : FastSet) (n : ℕ) → IsValid s → IsValid o → IsValid (join s o n)
unfolding join
join-IsValid s (small values) n h k = insert_all-IsValid s values h k.2
join-IsValid (small values) (bitset others) n h k =
    length-or_words (n / 64 + 1) (smalltobit values) others ∙ length-smalltobit values
join-IsValid (bitset bits) (bitset others) n h k = length-or_words (n / 64 + 1) bits others ∙ h

-- `join` of valid sets, with a bound `n` below MAX_SIZE, is union on the values up to the bound.
pub member-join :
    (s o : FastSet) (n z : ℕ)
    → IsValid s
    → IsValid o
    → n < max_size
    → z ≤ n
    → member (join s o n) z ≡ (member s z || member o z)
unfolding join member
member-join (small xs) (small values) n z valid other bound h =
    unfold member in member-insert_all (small xs) values z valid other.2
member-join (bitset bits) (small values) n z valid other bound h =
    unfold member in member-insert_all (bitset bits) values z valid other.2
member-join (small values) (bitset others) n z valid other bound h =
    getbit-or_words n z (smalltobit values) others (length-smalltobit values) other bound h
    ∙ ap (λ b. b || getbit others z) (getbit-smalltobit values z valid.2)
member-join (bitset bits) (bitset others) n z valid other bound h =
    getbit-or_words n z bits others valid other bound h
