-- ===== src/Bytemap.antt =====
-- src/bytemap_t.hpp: one byte for each cache line of the heap. The maps in DRAM hold 0, 1 or -1 for
-- a block that was not touched, was allocated or freed, or was both in the epoch; the map in NVM
-- holds sizes in cache lines. A `char` is its bit pattern below 256.
pub mod Size
use escort.Prelude.{
  ℕ, zero, suc, ◌+◌, ◌-◌, ◌/◌, ◌%◌, Bool, true, false, Option, some, leb, ltb, ◌==◌, update, assert,
  ◌>>=◌, ◌>>◌,
}
use escort.Address.{cache_line_size, log_cache_line_size, heap_size}

abbrev pub Bytemap : Type 0
Bytemap = ℕ → ℕ

abbrev pub clear : ℕ → Bytemap → Bytemap
clear index m = update m index 0

abbrev pub get_byte : Bytemap → ℕ → ℕ
get_byte m index = m index

-- `bytemap_dram_t`
abbrev pub is_set : Bytemap → ℕ → Bool
is_set m index = m index == 1

abbrev pub set : ℕ → Bytemap → Bytemap
set index m = update m index 1

abbrev pub reverse : ℕ → Bytemap → Bytemap
reverse index m = update m index ((256 - m index) % 256)

-- `bytemap_nvm_t`
abbrev pub set_num_bytes : ℕ → ℕ → Bytemap → Bytemap
set_num_bytes index num_bytes m = update m index (num_bytes % 256)

-- The loop of `set_obj_size`; the fuel is a bound on the lines that are left.
unfoldable pub fill : ℕ → ℕ → ℕ → Bytemap → Bytemap
fill zero index sum m = m
fill (suc fuel) index sum m = elim (ltb 0 sum) [
  | false ↦ m
  | true ↦ elim (leb cache_line_size sum) [
    | true ↦ fill fuel (suc index) (sum - cache_line_size) (update m index cache_line_size)
    | false ↦ fill fuel (suc index) 0 (update m index sum)
  ]
]

unfoldable pub set_obj_size : ℕ → ℕ → Bytemap → Option Bytemap
unfolding fill
set_obj_size index obj_size m = do
  let obj_bytes_sum = obj_size / cache_line_size
  assert (
      leb (index + (obj_bytes_sum + cache_line_size - 1) / cache_line_size)
        (heap_size / cache_line_size))
  some (fill obj_bytes_sum index obj_bytes_sum m)
