-- ===== src/Bitmap/Rotate.antt =====
-- The bits of a rotated bitmap.
use arishem.Base.{
  ℕ, zero, suc, ◌+◌, ◌-◌, ◌≤◌, ◌<◌, ◌≡◌, refl, ap, ◌∙◌, sym, arith, ltb, leb, ◌==◌, false, ◌&&◌,
  inl, inr, Bool-cases, length, set, length-set, get_or-set_self, get_or-set_ne,
}
use mathlib.Core.Path.{subst}
use arishem.Bitmap.{Bitmap, bit, no_bits, bitmap_max_size, copy_bits, rotate_left, rotate_right}

copy_bits-length :
    (bmp : Bitmap) (from to i left : ℕ) (result : Bitmap)
    → length (copy_bits bmp from to i left result) ≡ length result
unfolding copy_bits
copy_bits-length bmp from to i zero result = refl
copy_bits-length bmp from to i (suc left) result =
    copy_bits-length bmp from to (i + 1) left (set result (i + to) (bit bmp (i + from)))
    ∙ length-set result (i + to) (bit bmp (i + from))

bit-copy_bits_outside :
    (bmp : Bitmap) (from to i left : ℕ) (result : Bitmap) (j : ℕ)
    → (leb (i + to) j && ltb j (i + to + left)) ≡ false
    → bit (copy_bits bmp from to i left result) j ≡ bit result j
unfolding copy_bits
bit-copy_bits_outside bmp from to i zero result j out = refl
bit-copy_bits_outside bmp from to i (suc left) result j out =
    bit-copy_bits_outside bmp from to (i + 1) left (set result (i + to) (bit bmp (i + from))) j
      (ground arith)
    ∙ get_or-set_ne result (i + to) j (bit bmp (i + from)) false (ground arith)

bit-copy_bits_inside :
    (bmp : Bitmap) (from to i left : ℕ) (result : Bitmap) (k : ℕ)
    → i ≤ k
    → k < i + left
    → k + to < length result
    → bit (copy_bits bmp from to i left result) (k + to) ≡ bit bmp (k + from)
unfolding copy_bits
bit-copy_bits_inside bmp from to i zero result k lo hi lt = absurd (omega arith)
bit-copy_bits_inside bmp from to i (suc left) result k lo hi lt =
    let next = set result (i + to) (bit bmp (i + from)) in
    elim (Bool-cases (i == k)) [
      | inl y ↦
          let ik : i ≡ k = ground arith in
          subst (λ k. bit (copy_bits bmp from to (i + 1) left next) (k + to) ≡ bit bmp (k + from))
            ik
            (bit-copy_bits_outside bmp from to (i + 1) left next (i + to) (ground arith)
              ∙ get_or-set_self result (i + to) (bit bmp (i + from)) false (omega arith))
      | inr z ↦
          bit-copy_bits_inside bmp from to (i + 1) left next k (ground arith) (omega arith)
            (omega (arith, length-set result (i + to) (bit bmp (i + from))))
    ]

-- The two loops of a rotation by `amount`: the places they fill and what they read.
bit-rotate_left_high :
    (bmp : Bitmap) (amount size k : ℕ)
    → amount ≤ size
    → size ≤ bitmap_max_size
    → k < size - amount
    → bit (rotate_left bmp amount size) (k + amount) ≡ bit bmp k
unfolding rotate_left
bit-rotate_left_high bmp amount size k fits small h =
    let first = copy_bits bmp 0 amount 0 (size - amount) no_bits in
    let z : k + 0 ≡ k = omega arith in
    bit-copy_bits_outside bmp (size - amount) 0 0 amount first (k + amount) (ground arith)
    ∙ bit-copy_bits_inside bmp 0 amount 0 (size - amount) no_bits k (omega arith) (omega arith)
        (omega arith)
    ∙ ap (bit bmp) z

bit-rotate_left_low :
    (bmp : Bitmap) (amount size k : ℕ)
    → amount ≤ size
    → size ≤ bitmap_max_size
    → k < amount
    → bit (rotate_left bmp amount size) k ≡ bit bmp (k + (size - amount))
unfolding rotate_left
bit-rotate_left_low bmp amount size k fits small h =
    let first = copy_bits bmp 0 amount 0 (size - amount) no_bits in
    let z : k ≡ k + 0 = omega arith in
    ap (bit (copy_bits bmp (size - amount) 0 0 amount first)) z
    ∙ bit-copy_bits_inside bmp (size - amount) 0 0 amount first k (omega arith) (omega arith)
        (omega (arith, copy_bits-length bmp 0 amount 0 (size - amount) no_bits))

bit-rotate_right_low :
    (bmp : Bitmap) (amount size k : ℕ)
    → amount ≤ size
    → size ≤ bitmap_max_size
    → k < size - amount
    → bit (rotate_right bmp amount size) k ≡ bit bmp (k + amount)
unfolding rotate_right
bit-rotate_right_low bmp amount size k fits small h =
    let first = copy_bits bmp amount 0 0 (size - amount) no_bits in
    let z : k ≡ k + 0 = omega arith in
    bit-copy_bits_outside bmp 0 (size - amount) 0 amount first k (ground arith)
    ∙ ap (bit first) z
    ∙ bit-copy_bits_inside bmp amount 0 0 (size - amount) no_bits k (omega arith) (omega arith)
        (omega arith)

bit-rotate_right_high :
    (bmp : Bitmap) (amount size k : ℕ)
    → amount ≤ size
    → size ≤ bitmap_max_size
    → k < amount
    → bit (rotate_right bmp amount size) (k + (size - amount)) ≡ bit bmp k
unfolding rotate_right
bit-rotate_right_high bmp amount size k fits small h =
    let first = copy_bits bmp amount 0 0 (size - amount) no_bits in
    let z : k + 0 ≡ k = omega arith in
    bit-copy_bits_inside bmp 0 (size - amount) 0 amount first k (omega arith) (omega arith)
      (omega (arith, copy_bits-length bmp amount 0 0 (size - amount) no_bits))
    ∙ ap (bit bmp) z

-- Rotating a bitmap of `size` bits, at most 64, left by at most `size` places and then right by
-- as many gives back each of its bits.
pub rotate_right-rotate_left :
    (bmp : Bitmap) (amount size j : ℕ)
    → amount ≤ size
    → size ≤ bitmap_max_size
    → j < size
    → bit (rotate_right (rotate_left bmp amount size) amount size) j ≡ bit bmp j
rotate_right-rotate_left bmp amount size j fits small h =
    let turned = rotate_left bmp amount size in
    elim (Bool-cases (ltb j (size - amount))) [
      | inl y ↦
          bit-rotate_right_low turned amount size j fits small (ground arith)
          ∙ bit-rotate_left_high bmp amount size j fits small (ground arith)
      | inr z ↦
          let k = j - (size - amount) in
          let e : j ≡ k + (size - amount) = ground arith in
          let lt : k < amount = ground arith in
          ap (bit (rotate_right turned amount size)) e
          ∙ bit-rotate_right_high turned amount size k fits small lt
          ∙ bit-rotate_left_low bmp amount size k fits small lt
          ∙ ap (bit bmp) (sym e)
    ]
