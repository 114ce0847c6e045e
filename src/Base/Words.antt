-- ===== src/Base/Words.antt =====
-- Unsigned machine words as native numbers; the wrap-around is written out.
use Prim.Native.Nat.{ℕ, ◌+◌, ◌-◌, ◌*◌, ◌/◌, ◌%◌, ◌^◌}

-- `x++` and `x--` on a `uint32_t`
abbrev pub inc32 : ℕ → ℕ
inc32 x = (x + 1) % 2 ^ 32

abbrev pub dec32 : ℕ → ℕ
dec32 x = (x + 2 ^ 32 - 1) % 2 ^ 32

-- `x++` and `x + y` on a `uint64_t`
abbrev pub inc64 : ℕ → ℕ
inc64 x = (x + 1) % 2 ^ 64

abbrev pub add64 : ℕ → ℕ → ℕ
add64 x y = (x + y) % 2 ^ 64

abbrev pub uint32_max : ℕ
uint32_max = 2 ^ 32 - 1

abbrev pub uint64_max : ℕ
uint64_max = 2 ^ 64 - 1

-- `address >> LOG2_PAGE_SIZE` and `address >> LOG2_BLOCK_SIZE`
abbrev pub page_of : ℕ → ℕ
page_of address = address / 2 ^ 12

abbrev pub block_of : ℕ → ℕ
block_of address = address / 2 ^ 6

-- `(address >> LOG2_BLOCK_SIZE) & ((1ull << (LOG2_PAGE_SIZE - LOG2_BLOCK_SIZE)) - 1)`
abbrev pub offset_of : ℕ → ℕ
offset_of address = address / 2 ^ 6 % 2 ^ 6

-- `(page << LOG2_PAGE_SIZE) + (offset << LOG2_BLOCK_SIZE)`, for an offset below 64
abbrev pub line_address : ℕ → ℕ → ℕ
line_address page offset = (page * 2 ^ 12 + offset * 2 ^ 6) % 2 ^ 64
