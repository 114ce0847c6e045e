-- ===== src/FastSet/BitArray.antt =====
-- The array of `MAX_SIZE / 64` words of inc/set.h: the bits after a write, after the conversion of a
-- small array, and after the loop of `join`.
use arishem.Base.{
  ℕ, ◌+◌, ◌/◌, ◌%◌, ◌<◌, ◌≤◌, ◌≡◌, refl, false, ◌||◌, List, [], ◌∷◌, ◌==◌, arith, ap, get_or, set,
  get_or-set_self, get_or-set_ne, get_or-replicate, length-set, zero, suc, length, inl, inr,
  Bool-cases, All, ◌∙◌,
}
use arishem.FastSet.{
  setbit, getbit, smalltobit, or_words, Bits, Word, no_word, no_bits, with_bit, max_size,
}
use arishem.FastSet.Order.{contains}

pub length-setbit : (bits : Bits) (x : ℕ) → length (setbit bits x) ≡ length bits
unfolding setbit
length-setbit bits x = length-set bits (x / 64) (with_bit (get_or bits (x / 64) no_word) (x % 64))

-- Two numbers with the same word and the same bit are equal.
pub getbit-setbit :
    (bits : Bits) (x z : ℕ)
    → length bits ≡ 32
    → x < max_size
    → getbit (setbit bits x) z ≡ ((x == z) || getbit bits z)
unfolding getbit setbit
getbit-setbit bits x z words below =
    let word = with_bit (get_or bits (x / 64) no_word) (x % 64) in
    elim (Bool-cases (x / 64 == z / 64)) [
      | inl e ↦
          let e' : x / 64 ≡ z / 64 = ground arith in
          let same : get_or (set bits (x / 64) word) (z / 64) no_word ≡ word =
            rw (← e') (get_or-set_self bits (x / 64) word no_word (omega arith)) in
          let bit : (z % 64 == x % 64) ≡ (x == z) = ground arith in rw (same, bit, e') refl
      | inr ne ↦
          let other = get_or-set_ne bits (x / 64) (z / 64) word no_word (ground arith) in
          let differ : (x == z) ≡ false = ground arith in rw (other, differ) refl
    ]

pub length-smalltobit : (xs : List ℕ) → length (smalltobit xs) ≡ 32
unfolding smalltobit
length-smalltobit [] = refl
length-smalltobit (x ∷ xs) = length-setbit (smalltobit xs) x ∙ length-smalltobit xs

getbit-no_bits : (z : ℕ) → getbit no_bits z ≡ false
unfolding getbit
getbit-no_bits z = ap (λ (w : Word). w (z % 64)) (get_or-replicate 32 (z / 64) no_word)

pub getbit-smalltobit :
    (xs : List ℕ) (z : ℕ) → All (λ y. y < max_size) xs → getbit (smalltobit xs) z ≡ contains xs z
unfolding smalltobit contains
getbit-smalltobit [] z h = getbit-no_bits z
getbit-smalltobit (x ∷ xs) z h =
    rw (getbit-setbit (smalltobit xs) x z (length-smalltobit xs) h.0, getbit-smalltobit xs z h.1)
      refl

pub length-or_words :
    (lim : ℕ) (bits others : Bits) → length (or_words lim bits others) ≡ length bits
unfolding or_words
length-or_words zero bits others = refl
length-or_words (suc lim) [] others = refl
length-or_words (suc lim) (word ∷ bits) [] = refl
length-or_words (suc lim) (word ∷ bits) (other ∷ others) = ap suc (length-or_words lim bits others)

get_or-or_words :
    (lim : ℕ) (bits others : Bits) (i bit : ℕ)
    → i < lim
    → i < length bits
    → i < length others
    → get_or (or_words lim bits others) i no_word bit
      ≡ (get_or bits i no_word bit || get_or others i no_word bit)
unfolding or_words
get_or-or_words zero bits others i bit a b c = absurd (omega arith)
get_or-or_words (suc lim) [] others i bit a b c = absurd (omega arith)
get_or-or_words (suc lim) (word ∷ bits) [] i bit a b c = absurd (omega arith)
get_or-or_words (suc lim) (word ∷ bits) (other ∷ others) zero bit a b c = refl
get_or-or_words (suc lim) (word ∷ bits) (other ∷ others) (suc i) bit a b c =
    get_or-or_words lim bits others i bit (omega arith) (omega arith) (omega arith)

pub getbit-or_words :
    (n z : ℕ) (bits others : Bits)
    → length bits ≡ 32
    → length others ≡ 32
    → n < max_size
    → z ≤ n
    → getbit (or_words (n / 64 + 1) bits others) z ≡ (getbit bits z || getbit others z)
unfolding getbit
getbit-or_words n z bits others words others_words bound h =
    get_or-or_words (n / 64 + 1) bits others (z / 64) (z % 64) (omega arith) (omega arith)
      (omega arith)
