-- ===== src/Interface/Rules.antt =====
-- The rules by which a program calls the library, and what its calls store.
use escort.Prelude.{
  ℕ, ◌+◌, ◌*◌, ◌/◌, ◌%◌, ◌^◌, ◌≤◌, ◌<◌, ◌≡◌, Bool, true, false, some, List, [], ◌∷◌, update, count,
  length,
}
use escort.Address.{cache_line_size, dram_base, num_lines}
use escort.Plog.{Memory}
use escort.Userthread.{num_bits_of}
use escort.Userthread.Mark.{byte_line}
use escort.Interface.{Ctx, assign, Call, begin_op_call, end_op_call, write_region_call, pwrite_call}

-- A call by a thread within an operation, or outside of one, is allowed; a `pwrite` on an object that
-- takes no more lines than its size says.
abbrev pub Allowed : (ℕ → Bool) → ℕ → Call → Type 0
Allowed inside i begin_op_call = inside i ≡ false
Allowed inside i end_op_call = inside i ≡ true
Allowed inside i (write_region_call addr size) =
    (inside i ≡ true) × (dram_base ≤ addr) × (byte_line addr + num_bits_of size ≤ num_lines)
Allowed inside i (pwrite_call addr val) =
    (inside i ≡ true)
    × (dram_base ≤ addr)
    × (byte_line addr + num_bits_of (length val) ≤ num_lines)
    × (length val < 2 ^ 63)
    × (addr % cache_line_size + length val ≤ (length val + 63) / 64 * cache_line_size)

abbrev pub inside_after : ℕ → Call → (ℕ → Bool) → ℕ → Bool
inside_after i begin_op_call inside = update inside i true
inside_after i end_op_call inside = update inside i false
inside_after i (write_region_call addr size) inside = inside
inside_after i (pwrite_call addr val) inside = inside

-- How many lines a call may put on a list, and what it stores.
abbrev pub cost : Call → ℕ
cost begin_op_call = 0
cost end_op_call = 0
cost (write_region_call addr size) = num_bits_of size
cost (pwrite_call addr val) = num_bits_of (length val)

abbrev pub stores : Call → Memory → Memory
stores begin_op_call dram = dram
stores end_op_call dram = dram
stores (write_region_call addr size) dram = dram
stores (pwrite_call addr val) dram = assign addr val dram

-- The calls of a program keep to the rules, one after the other.
abbrev pub Proper : List ℕ → (ℕ → Bool) → List (Ctx × Call) → Type 0
Proper ctxs inside [] = Unit
Proper ctxs inside ((ctx, k) ∷ rest) =
    (i : ℕ) × (ctx ≡ some i)
    × (0 < count i ctxs)
    × Allowed inside i k
    × Proper ctxs (inside_after i k inside) rest

abbrev pub total_cost : List (Ctx × Call) → ℕ
total_cost [] = 0
total_cost ((ctx, k) ∷ rest) = cost k + total_cost rest

-- The DRAM after all stores of a program.
abbrev pub all_stores : List (Ctx × Call) → Memory → Memory
all_stores [] dram = dram
all_stores ((ctx, k) ∷ rest) dram = all_stores rest (stores k dram)
