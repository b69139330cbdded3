-- ===== src/Cpallocator/Bytes.antt =====
-- `check_valid` resets the bytes of the blocks that the logs name.
use escort.Prelude.{
  ℕ, zero, suc, ◌+◌, ◌<◌, ◌≤◌, ◌≡◌, refl, ap, ◌∙◌, false, some, ◌==◌, if◌then◌else◌, update, ◌⊎◌,
  inl, inr, Option-cases, Bool-cases, ==_iff, arith,
}
use escort.Address.{get_index}
use escort.Bytemap
use escort.Bytemap.{Bytemap}
use escort.Chain.{Block}
use escort.Allocatorlog.{AllocEntry}
use escort.Cpallocator.{check_entry, check_block}

-- A call that succeeded: each byte is as it was, or reset.
abbrev pub IsReset : Bytemap → Bytemap → Type 0
IsReset bytes bytes' = (index : ℕ) → (bytes' index ≡ bytes index) ⊎ (bytes' index ≡ 0)

-- What the loop over the entries from `i` on leaves.
pub record Checked (fuel i : ℕ) (block block' : Block ℕ AllocEntry) (bytes bytes' : Bytemap)
    : Type 0 where
  pub same_size : block'.size ≡ block.size
  pub before : (j : ℕ) → j < i → block'.entries j ≡ block.entries j
  pub same_addr : (j : ℕ) → (block'.entries j).addr ≡ (block.entries j).addr
  pub same_obj : (j : ℕ) → (block'.entries j).size ≡ (block.entries j).size
  pub reset_or_kept : IsReset bytes bytes'
  pub reset :
      (j index : ℕ)
      → i ≤ j
      → j < i + fuel
      → get_index (block.entries j).addr ≡ some index
      → bytes' index ≡ 0

Checked-next :
    (fuel i index : ℕ) (block block' : Block ℕ AllocEntry) (bytes bytes' : Bytemap)
    → get_index (block.entries i).addr ≡ some index
    → (next : Block ℕ AllocEntry) → next.size ≡ block.size
    → ((j : ℕ) → j < i → next.entries j ≡ block.entries j)
    → Checked fuel (suc i) next block' (Bytemap.clear index bytes) bytes'
    → ((j : ℕ) → (next.entries j).addr ≡ (block.entries j).addr)
    → ((j : ℕ) → (next.entries j).size ≡ (block.entries j).size)
    → Checked (suc fuel) i block block' bytes bytes'
Checked-next fuel i index block block' bytes bytes' got next size low c same obj = record {
  same_size = c.same_size ∙ size;
  before = λ j l. c.before j (omega (arith, l)) ∙ low j l;
  same_addr = λ j. c.same_addr j ∙ same j;
  same_obj = λ j. c.same_obj j ∙ obj j;
  reset_or_kept = λ index'. ground (arith, c.reset_or_kept index', ==_iff index index');
  reset = λ j index' a b g. elim (Bool-cases (i == j)) [
    | inl here ↦ ground (arith, c.reset_or_kept index', ==_iff i j, ==_iff index index')
    | inr later ↦
        c.reset j index' (ground (arith, ==_iff i j)) (omega (arith, b)) (ap get_index (same j) ∙ g)
  ];
}

-- A pass over the entries of a block that succeeds resets the byte of each of their blocks, keeps
-- every other byte and the addresses.
pub check_block-Checked :
    (fuel i : ℕ) (block block' : Block ℕ AllocEntry) (bytes bytes' : Bytemap)
    → check_block fuel i block bytes ≡ some (block', bytes')
    → Checked fuel i block block' bytes bytes'
unfolding check_block check_entry
check_block-Checked zero i block block' bytes bytes' h = record {
  same_size = ground (arith, h);
  before = λ j l. ground (arith, h);
  same_addr = λ j. ground (arith, h);
  same_obj = λ j. ground (arith, h);
  reset_or_kept = λ index. ground (arith, h);
  reset = λ j index a b g. absurd (omega arith);
}
check_block-Checked (suc fuel) i block block' bytes bytes' h =
    elim (Option-cases (get_index (block.entries i).addr)) [
      | inl failed ↦ absurd (ground arith)
      | inr (index, got) ↦
          Checked-next fuel i index block block' bytes bytes' got (next_of index) refl
            (λ j l. ground arith)
            (check_block-Checked fuel (suc i) (next_of index) block' (Bytemap.clear index bytes)
              bytes' (ground arith))
            (λ j. ground (arith, Bool-cases (Bytemap.is_set bytes index), ==_iff i j))
            (λ j. ground (arith, Bool-cases (Bytemap.is_set bytes index), ==_iff i j))
    ]
  where
    next_of : ℕ → Block ℕ AllocEntry
    next_of index = record block {
      entries = update block.entries i (
          if Bytemap.is_set bytes index
          then block.entries i
          else record (block.entries i) { is_valid = false });
    }
