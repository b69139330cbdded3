-- ===== src/Address.antt =====
-- Addresses, src/globalEscort.hpp and src/globalEscort.cpp, and `get_index` of src/bitmap_t.hpp and
-- src/bytemap_t.hpp. An address is the number of its byte, below 2^64.
use escort.Prelude.{
  ℕ, suc, ◌+◌, ◌-◌, ◌*◌, ◌/◌, ◌%◌, ◌^◌, ◌<◌, ◌≡◌, Option, some, leb, assert, ◌>>◌, arith,
}

abbrev pub log_cache_line_size : ℕ
log_cache_line_size = 6

abbrev pub cache_line_size : ℕ
cache_line_size = 2 ^ log_cache_line_size

abbrev pub calc_heapsize : ℕ → ℕ
calc_heapsize a = a * 2 ^ 30

abbrev pub heap_size : ℕ
heap_size = calc_heapsize 8

abbrev pub dram_base : ℕ
dram_base = 0x7f9f14abd000

-- The sum wraps at 64 bits.
unfoldable pub add_addr : ℕ → ℕ → ℕ
add_addr addr offset = (addr + offset) % 2 ^ 64

-- `diff_addr` and the assertion that the difference is not negative, then the division.
unfoldable pub get_index : ℕ → Option ℕ
get_index addr = do assert (leb dram_base addr); some ((addr - dram_base) / cache_line_size)

-- The number of cache lines in the heap, and where line `l` begins in DRAM.
abbrev pub num_lines : ℕ
num_lines = heap_size / cache_line_size

abbrev pub line_addr : ℕ → ℕ
line_addr l = dram_base + l * cache_line_size

-- Every byte of a line has the index of the line.
pub get_index-line : (l r : ℕ) → r < cache_line_size → get_index (line_addr l + r) ≡ some l
unfolding get_index
get_index-line l r h = ground arith

-- Within the heap no sum of addresses wraps.
pub add_addr-line :
    (l : ℕ) → l < num_lines → add_addr (line_addr l) cache_line_size ≡ line_addr (suc l)
unfolding add_addr
add_addr-line l h = omega arith
