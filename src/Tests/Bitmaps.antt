-- ===== src/Tests/Bitmaps.antt =====
-- Runs of the bitmap helpers of src/bitmap.cc.
use arishem.Base.{◌+◌, ◌≡◌, arith, true, ◌&&◌, ◌||◌, set, ltb}
use arishem.Bitmap.{
  Bitmap, no_bits, bit, rotate_left, rotate_right, bitwise_or, bitwise_and, count_bits_same,
  count_bits_diff, count_bits_set,
}
use arishem.Bitmap.Rotate.{rotate_right-rotate_left}
use arishem.Bitmap.Counts.{bitwise_lem, count_bits_lem}

abbrev two_bits : Bitmap
two_bits = set (set no_bits 3 true) 30 true

abbrev one_bit : Bitmap
one_bit = set no_bits 3 true

rotate_right-rotate_left_example :
    bit (rotate_right (rotate_left two_bits 5 32) 5 32) 30 ≡ bit two_bits 30
rotate_right-rotate_left_example =
    rotate_right-rotate_left two_bits 5 32 30 (omega arith) (omega arith) (omega arith)

bitwise_lem_example :
    (bit (bitwise_or two_bits one_bit 32) 30 ≡ (ltb 30 32 && (bit two_bits 30 || bit one_bit 30)))
    × (bit (bitwise_and two_bits one_bit 32) 30
        ≡ (ltb 30 32 && (bit two_bits 30 && bit one_bit 30)))
bitwise_lem_example = bitwise_lem two_bits one_bit 32 30 (omega arith)

count_bits_lem_example :
    count_bits_same two_bits one_bit 32 + count_bits_diff two_bits one_bit 32
    ≡ count_bits_set two_bits 32
count_bits_lem_example = count_bits_lem two_bits one_bit 32
