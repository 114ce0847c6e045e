-- ===== src/Bitmap.antt =====
-- The bitmaps of inc/bitmap.h and src/bitmap.cc: a `std::bitset<64>` is the list of its bits. The
-- rotations are called with an amount up to the size; `compress` and `decompress` are left out.
pub mod Rotate
pub mod Counts
use arishem.Base.{
  ℕ, zero, suc, ◌+◌, ◌-◌, Bool, true, false, if◌then◌else◌, not, ◌&&◌, ◌||◌, List, get_or, set,
  replicate,
}

abbrev pub bitmap_max_size : ℕ
bitmap_max_size = 64

abbrev pub Bitmap : Type 0
Bitmap = List Bool

abbrev pub no_bits : Bitmap
no_bits = replicate bitmap_max_size false

abbrev pub bit : Bitmap → ℕ → Bool
bit bmp index = get_or bmp index false

-- The loops that count indices, from `index` on: how many of `left` indices pass.
unfoldable pub count_from : (ℕ → Bool) → ℕ → ℕ → ℕ
count_from test index zero = 0
count_from test index (suc left) =
    let rest = count_from test (index + 1) left in if test index then suc rest else rest

unfoldable pub count_bits_set : Bitmap → ℕ → ℕ
count_bits_set bmp size = count_from (λ i. bit bmp i) 0 size

abbrev pub same_bit : Bool → Bool → Bool
same_bit true b = b
same_bit false b = not b

unfoldable pub count_bits_same : Bitmap → Bitmap → ℕ → ℕ
count_bits_same bmp1 bmp2 size =
    count_from (λ i. bit bmp1 i && same_bit (bit bmp1 i) (bit bmp2 i)) 0 size

unfoldable pub count_bits_diff : Bitmap → Bitmap → ℕ → ℕ
count_bits_diff bmp1 bmp2 size = count_from (λ i. bit bmp1 i && not (bit bmp2 i)) 0 size

-- A loop `result[index + to] = bmp[index + from]` over `left` indices from `index` on.
unfoldable pub copy_bits : Bitmap → ℕ → ℕ → ℕ → ℕ → Bitmap → Bitmap
copy_bits bmp from to index zero result = result
copy_bits bmp from to index (suc left) result =
    copy_bits bmp from to (index + 1) left (set result (index + to) (bit bmp (index + from)))

unfoldable pub rotate_left : Bitmap → ℕ → ℕ → Bitmap
rotate_left bmp amount size =
    copy_bits bmp (size - amount) 0 0 amount (copy_bits bmp 0 amount 0 (size - amount) no_bits)

unfoldable pub rotate_right : Bitmap → ℕ → ℕ → Bitmap
rotate_right bmp amount size =
    copy_bits bmp 0 (size - amount) 0 amount (copy_bits bmp amount 0 0 (size - amount) no_bits)

-- The loops that set the bits of the indices that pass.
unfoldable pub mark_from : (ℕ → Bool) → ℕ → ℕ → Bitmap → Bitmap
mark_from test index zero result = result
mark_from test index (suc left) result =
    mark_from test (index + 1) left (if test index then set result index true else result)

unfoldable pub bitwise_or : Bitmap → Bitmap → ℕ → Bitmap
bitwise_or bmp1 bmp2 size = mark_from (λ i. bit bmp1 i || bit bmp2 i) 0 size no_bits

unfoldable pub bitwise_and : Bitmap → Bitmap → ℕ → Bitmap
bitwise_and bmp1 bmp2 size = mark_from (λ i. bit bmp1 i && bit bmp2 i) 0 size no_bits
