-- ===== src/FastSet/Order.antt =====
-- Membership in the two representations of a fast set, and the order that the small one keeps.
use arishem.Base.{
  ℕ, zero, suc, ◌<◌, ◌≡◌, refl, Bool, true, false, ◌||◌, List, [], ◌∷◌, ◌==◌, arith, length, get_or,
  All, Bool-cases, All-get_or, inl, inr,
}
use arishem.FastSet.{FastSet, small, bitset, small_size, max_size, getbit}

unfoldable pub contains : List ℕ → ℕ → Bool
contains [] x = false
contains (y ∷ ys) x = y == x || contains ys x

-- The elements of a set, as a test.
unfoldable pub member : FastSet → ℕ → Bool
member (small values) x = contains values x
member (bitset bits) x = getbit bits x

abbrev pub IsSorted : List ℕ → Type 0
IsSorted [] = Unit
IsSorted (x ∷ xs) = All (λ y. x < y) xs × IsSorted xs

-- The array is sorted with no repetition, too short to be a bit set, and below MAX_SIZE; a bit set
-- has its `MAX_SIZE / 64` words.
abbrev pub IsValid : FastSet → Type 0
IsValid (small values) =
    IsSorted values × (length values < small_size) × All (λ y. y < max_size) values
IsValid (bitset bits) = length bits ≡ 32

pub All-lt_trans : (a b : ℕ) (xs : List ℕ) → a < b → All (λ y. b < y) xs → All (λ y. a < y) xs
All-lt_trans a b [] h k = tt
All-lt_trans a b (x ∷ xs) h k = (omega arith, All-lt_trans a b xs h k.1)

pub contains-of_lt : (x : ℕ) (ys : List ℕ) → All (λ y. x < y) ys → contains ys x ≡ false
unfolding contains
contains-of_lt x [] h = refl
contains-of_lt x (y ∷ ys) h = ground (arith, contains-of_lt x ys h.1)

pub contains-get_or : (xs : List ℕ) (i : ℕ) → i < length xs → contains xs (get_or xs i 0) ≡ true
unfolding contains
contains-get_or [] i h = absurd (omega arith)
contains-get_or (x ∷ xs) zero h = ground arith
contains-get_or (x ∷ xs) (suc i) h = ground (arith, contains-get_or xs i)

-- Where a contained value stands.
pub index_of_contains :
    (xs : List ℕ) (x : ℕ) → contains xs x ≡ true → (i : ℕ) × (i < length xs) × (get_or xs i 0 ≡ x)
unfolding contains
index_of_contains [] x h = absurd (ground arith)
index_of_contains (y ∷ ys) x h = elim (Bool-cases (y == x)) [
  | inl e ↦ (0, omega arith, ground arith)
  | inr e ↦ let (i, lt, g) = index_of_contains ys x (ground arith) in (suc i, omega arith, g)
]

pub get_or_mono :
    (xs : List ℕ) (i j : ℕ) → IsSorted xs → i < j → j < length xs → get_or xs i 0 < get_or xs j 0
get_or_mono [] i j h lt b = absurd (omega arith)
get_or_mono (x ∷ xs) i zero h lt b = absurd (omega arith)
get_or_mono (x ∷ xs) zero (suc j) h lt b = All-get_or (λ y. x < y) xs j 0 h.0 (omega arith)
get_or_mono (x ∷ xs) (suc i) (suc j) h lt b = get_or_mono xs i j h.1 (omega arith) (omega arith)
