-- ===== src/FastSet/Expand.antt =====
-- `expand` lists the elements below its bound, each once and in increasing order.
use arishem.Base.{
  ℕ, zero, suc, ◌+◌, ◌<◌, ◌≤◌, ◌≡◌, refl, ◌&&◌, ltb, leb, ◌==◌, arith, All, inl, inr, Bool-cases,
}
use arishem.FastSet.{max_size, FastSet, small, bitset, Bits, getbit, expand_bits, expand}
use arishem.FastSet.Order.{contains, member, IsSorted, IsValid}

expand_bits-above :
    (bits : Bits) (from left a : ℕ) → a < from → All (λ y. a < y) (expand_bits bits from left)
unfolding expand_bits
expand_bits-above bits from zero a h = tt
expand_bits-above bits from (suc left) a h = elim (Bool-cases (getbit bits from)) [
  | inl e ↦ rw e (h, expand_bits-above bits (from + 1) left a (omega arith))
  | inr e ↦ rw e (expand_bits-above bits (from + 1) left a (omega arith))
]

expand_bits-IsSorted : (bits : Bits) (from left : ℕ) → IsSorted (expand_bits bits from left)
unfolding expand_bits
expand_bits-IsSorted bits from zero = tt
expand_bits-IsSorted bits from (suc left) = elim (Bool-cases (getbit bits from)) [
  | inl e ↦ rw e (
    expand_bits-above bits (from + 1) left from (omega arith),
    expand_bits-IsSorted bits (from + 1) left,
  )
  | inr e ↦ rw e (expand_bits-IsSorted bits (from + 1) left)
]

contains-expand_bits :
    (bits : Bits) (from left z : ℕ)
    → contains (expand_bits bits from left) z
      ≡ ((leb from z && ltb z (from + left)) && getbit bits z)
unfolding expand_bits contains
contains-expand_bits bits from zero z = ground arith
contains-expand_bits bits from (suc left) z = elim (Bool-cases (from == z)) [
  | inl e ↦
      let e' : from ≡ z = ground arith in
      rw (← e') (ground (arith, contains-expand_bits bits (from + 1) left from))
  | inr e ↦ ground (arith, contains-expand_bits bits (from + 1) left z)
]

-- `expand` of a valid set, with a bound of at most MAX_SIZE, writes an increasing array, and of the
-- values below the bound exactly the elements of the set.
pub expand_lem :
    (s : FastSet) (n : ℕ)
    → IsValid s
    → n ≤ max_size
    → IsSorted (expand s n) × ((z : ℕ) → z < n → contains (expand s n) z ≡ member s z)
unfolding expand member
expand_lem (small values) n h bound = (h.0, λ z lt. refl)
expand_lem (bitset bits) n h bound =
    (expand_bits-IsSorted bits 0 n, λ z lt. ground (arith, contains-expand_bits bits 0 n z))
