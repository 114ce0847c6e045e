-- ===== src/Bitmap/Counts.antt =====
-- The bits of a union and of an intersection of bitmaps, and the counts of common and missing bits.
use arishem.Base.{
  ℕ, zero, suc, ◌+◌, ◌<◌, ◌≡◌, refl, ◌∙◌, arith, ltb, leb, ◌==◌, if◌then◌else◌, Bool, true, false,
  not, ◌&&◌, ◌||◌, inl, inr, Bool-cases, length, set, length-set, get_or-set_self, get_or-set_ne,
  get_or-replicate,
}
use mathlib.Core.Path.{subst}
use arishem.Bitmap.{
  Bitmap, bit, same_bit, no_bits, bitmap_max_size, count_from, count_bits_set, count_bits_same,
  count_bits_diff, mark_from, bitwise_or, bitwise_and,
}

count_from-split :
    (bmp1 bmp2 : Bitmap) (i left : ℕ)
    → count_from (λ i. bit bmp1 i && same_bit (bit bmp1 i) (bit bmp2 i)) i left
        + count_from (λ i. bit bmp1 i && not (bit bmp2 i)) i left
      ≡ count_from (λ i. bit bmp1 i) i left
unfolding count_from
count_from-split bmp1 bmp2 i zero = refl
count_from-split bmp1 bmp2 i (suc left) = ground (arith, count_from-split bmp1 bmp2 (i + 1) left)

bit-set :
    (bmp : Bitmap) (i j : ℕ) (b : Bool)
    → j < length bmp
    → bit (set bmp i b) j ≡ (if i == j then b else bit bmp j)
bit-set bmp i j b lt = elim (Bool-cases (i == j)) [
  | inl y ↦
      let ij : i ≡ j = ground arith in
      rw y (subst (λ k. bit (set bmp i b) k ≡ b) ij (get_or-set_self bmp i b false (omega arith)))
  | inr z ↦ rw z (get_or-set_ne bmp i j b false (ground arith))
]

mark_from-length :
    (test : ℕ → Bool) (i left : ℕ) (result : Bitmap)
    → length (mark_from test i left result) ≡ length result
unfolding mark_from
mark_from-length test i zero result = refl
mark_from-length test i (suc left) result = ground (
  arith,
  mark_from-length test (i + 1) left (if test i then set result i true else result),
  length-set result i true,
)

bit-mark_from :
    (test : ℕ → Bool) (i left : ℕ) (result : Bitmap) (j : ℕ)
    → j < length result
    → bit (mark_from test i left result) j ≡ (leb i j && ltb j (i + left) && test j || bit result j)
unfolding mark_from
bit-mark_from test i zero result j h = ground arith
bit-mark_from test i (suc left) result j h = elim (Bool-cases (test i)) [
  | inl y ↦
      let r =
        bit-mark_from test (i + 1) left (set result i true) j
          (omega (arith, length-set result i true)) in
      let b = bit-set result i j true h in
      elim (Bool-cases (i == j)) [
        | inl s ↦
            let ij : i ≡ j = ground arith in
            let tj : test j ≡ true = subst (λ k. test k ≡ true) ij y in
            rw y (r ∙ ground (arith, b, tj))
        | inr n ↦ rw y (r ∙ ground (arith, b))
      ]
  | inr z ↦
      let r = bit-mark_from test (i + 1) left result j h in
      elim (Bool-cases (i == j)) [
        | inl s ↦
            let ij : i ≡ j = ground arith in
            let tj : test j ≡ false = subst (λ k. test k ≡ false) ij z in
            rw z (r ∙ ground (arith, tj))
        | inr n ↦ rw z (r ∙ ground arith)
      ]
]

-- At an index below 64, a bit of the union of two bitmaps of `size` bits is set if one of the
-- bitmaps has it, a bit of their intersection if both have it; no bit past the size is set.
pub bitwise_lem :
    (bmp1 bmp2 : Bitmap) (size j : ℕ)
    → j < bitmap_max_size
    → (bit (bitwise_or bmp1 bmp2 size) j ≡ (ltb j size && (bit bmp1 j || bit bmp2 j)))
      × (bit (bitwise_and bmp1 bmp2 size) j ≡ (ltb j size && (bit bmp1 j && bit bmp2 j)))
unfolding bitwise_or bitwise_and
bitwise_lem bmp1 bmp2 size j h =
    let o = bit-mark_from (λ i. bit bmp1 i || bit bmp2 i) 0 size no_bits j (omega arith) in
    let a = bit-mark_from (λ i. bit bmp1 i && bit bmp2 i) 0 size no_bits j (omega arith) in
    let e : bit no_bits j ≡ false = get_or-replicate bitmap_max_size j false in
    (o ∙ ground (arith, e), a ∙ ground (arith, e))

-- The set bits of the first bitmap are those that the second has too and those that it lacks.
pub count_bits_lem :
    (bmp1 bmp2 : Bitmap) (size : ℕ)
    → count_bits_same bmp1 bmp2 size + count_bits_diff bmp1 bmp2 size ≡ count_bits_set bmp1 size
unfolding count_bits_same count_bits_diff count_bits_set
count_bits_lem bmp1 bmp2 size = count_from-split bmp1 bmp2 0 size
