-- ===== src/FastSet.antt =====
-- The set of small numbers of inc/set.h (`fastset`): a sorted array while it holds fewer than
-- SMALL_SIZE values, an array of 64-bit words from then on. The two share memory in the source
-- (a union) and `card` tells them apart, so they are the two constructors here.
pub mod Order
pub mod Search
pub mod BitArray
pub mod Insert
pub mod Expand
use arishem.Base.{
  ℕ, zero, suc, ◌+◌, ◌-◌, ◌*◌, ◌/◌, ◌%◌, ◌<◌, Bool, true, false, ◌&&◌, ◌||◌, List, [], ◌∷◌, ◌++◌,
  ltb, leb, ◌==◌, if◌then◌else◌, length, get_or, set, replicate,
}

-- MAX_SIZE: the values of a set are below it. (A value is an `unsigned short`, and the assertions
-- that it is below MAX_SIZE are commented out.)
abbrev pub max_size : ℕ
max_size = 2048

-- A word of `data.bits`, by its 64 bits, and the array of `MAX_SIZE / 64` words. What the source does
-- beyond the array is undefined; a write there changes nothing here and a read gives 0, and the
-- theorems are about values below `max_size`.
abbrev pub Word : Type 0
Word = ℕ → Bool

abbrev pub Bits : Type 0
Bits = List Word

pub data FastSet : Type 0 where
  small : List ℕ → FastSet
  bitset : Bits → FastSet

abbrev pub small_size : ℕ
small_size = 13

abbrev pub smaller_size : ℕ
smaller_size = 6

-- `card`, which stays at SMALL_SIZE once the set is a bit set.
abbrev pub card : FastSet → ℕ
card (small values) = length values
card (bitset bits) = small_size

-- The constructor: `card = 0`.
abbrev pub empty : FastSet
empty = small []

abbrev pub no_word : Word
no_word bit = false

abbrev pub no_bits : Bits
no_bits = replicate (max_size / 64) no_word

-- `word | 1ull << bit`
abbrev pub with_bit : Word → ℕ → Word
with_bit word bit i = i == bit || word i

unfoldable pub setbit : Bits → ℕ → Bits
setbit bits x = set bits (x / 64) (with_bit (get_or bits (x / 64) no_word) (x % 64))

unfoldable pub getbit : Bits → ℕ → Bool
getbit bits x = get_or bits (x / 64) no_word (x % 64)

-- The loop stops at an equal or at a larger value; the shift makes room before the latter.
unfoldable pub insert_small : List ℕ → ℕ → List ℕ
insert_small [] x = x ∷ []
insert_small (y ∷ ys) x =
    if y == x then y ∷ ys else if ltb x y then x ∷ y ∷ ys else y ∷ insert_small ys x

unfoldable pub search_small_linear : List ℕ → ℕ → Bool
search_small_linear [] x = false
search_small_linear (y ∷ ys) x =
    if ltb x y then false else if y == x then true else search_small_linear ys x

-- The binary search of `search_small` with fuel; `stop` is `end + 1`, so that it is never negative.
unfoldable pub search_between : ℕ → List ℕ → ℕ → ℕ → ℕ → Bool
search_between zero values begin stop x = false
search_between (suc fuel) values begin stop x =
    let middle = (begin + stop - 1) / 2 in
    let y = get_or values middle 0 in
    let below = if leb middle begin then false else search_between fuel values begin middle x in
    let above =
      if leb stop (middle + 1) then false else search_between fuel values (middle + 1) stop x in
    if ltb x y then below else if ltb y x then above else true

unfoldable pub search_small : List ℕ → ℕ → Bool
search_small values x =
    if length values == 0
    then false
    else if ltb (length values) smaller_size
    then search_small_linear values x
    else search_between (length values) values 0 (length values) x

unfoldable pub smalltobit : List ℕ → Bits
smalltobit [] = no_bits
smalltobit (x ∷ xs) = setbit (smalltobit xs) x

unfoldable pub insert : FastSet → ℕ → FastSet
insert (small values) x =
    if length values == 0
    then small (x ∷ [])
    else let values' = insert_small values x in
      if length values' == small_size then bitset (smalltobit values') else small values'
insert (bitset bits) x = bitset (setbit bits x)

unfoldable pub search : FastSet → ℕ → Bool
search (small values) x =
    if length values == 0
    then false
    else if length values == 1
    then get_or values 0 0 == x
    else search_small values x
search (bitset bits) x = getbit bits x

unfoldable pub insert_all : FastSet → List ℕ → FastSet
insert_all s [] = s
insert_all s (x ∷ xs) = insert_all (insert s x) xs

-- The words below `lim`, or'ed together; the words from `lim` on are this set's own.
unfoldable pub or_words : ℕ → Bits → Bits → Bits
or_words zero bits others = bits
or_words (suc lim) [] others = []
or_words (suc lim) bits [] = bits
or_words (suc lim) (word ∷ bits) (other ∷ others) =
    (λ bit. word bit || other bit) ∷ or_words lim bits others

-- `((n | 63) + 1) / 64` is `n / 64 + 1`.
unfoldable pub join : FastSet → FastSet → ℕ → FastSet
join s (small values) n = insert_all s values
join (small values) (bitset others) n = bitset (or_words (n / 64 + 1) (smalltobit values) others)
join (bitset bits) (bitset others) n = bitset (or_words (n / 64 + 1) bits others)

-- The bits `from`, `from + 1`, … up to `n`, which the two nested loops of `expand` walk through
-- (a word that is zero is skipped there, and has no bit to give).
unfoldable pub expand_bits : Bits → ℕ → ℕ → List ℕ
expand_bits bits from zero = []
expand_bits bits from (suc left) =
    let rest = expand_bits bits (from + 1) left in if getbit bits from then from ∷ rest else rest

unfoldable pub expand : FastSet → ℕ → List ℕ
expand (small values) n = values
expand (bitset bits) n = expand_bits bits 0 n
