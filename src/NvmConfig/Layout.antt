-- ===== src/NvmConfig/Layout.antt =====
-- The areas of the file do not overlap.
use escort.Prelude.{ℕ, ◌+◌, ◌%◌, ◌≤◌, ◌<◌, ◌≡◌, ◌≢◌, refl, true, ==_iff, arith}
use escort.Address.{dram_base}
use escort.NvmConfig.{Config, create_area}

pub record LaidOut (start heap_size : ℕ) (words : ℕ → ℕ) (c : Config) : Type 0 where
  pub heap_aligned : c.nvm_space % 64 ≡ 0
  pub header_before : c.root_pointer_addr + 8 ≤ c.nvm_space
  pub header_small : c.nvm_space < start + 104
  pub heap_between : c.nvm_space + heap_size ≡ c.persist_num_addr
  pub counters : (c.persist_num_addr + 8 ≡ c.user_num_addr) × (c.user_num_addr + 8 ≡ c.tmp_space)
  pub bases : (c.words c.dram_space_addr ≡ dram_base) × (c.words c.nvm_space_addr ≡ c.nvm_space)
  pub kept : (a : ℕ) → c.g_epoch_pointer_addr ≤ a → c.words a ≡ words a
  pub dirty : (words start ≢ 0) → c.is_dirty ≡ true

-- `create_area` puts the heap at the start of a line behind the words of the header and before the two
-- counters, stores the bases of both heaps, and keeps the epoch, the two pointers and all that follows
-- as the file holds them; a file that holds a base is dirty.
pub create_area-LaidOut :
    (start nvm_size heap_size : ℕ) (words : ℕ → ℕ)
    → LaidOut start heap_size words (create_area start nvm_size heap_size words)
unfolding create_area
create_area-LaidOut start nvm_size heap_size words = record {
  heap_aligned = ground arith;
  header_before = ground arith;
  header_small = ground arith;
  heap_between = refl;
  counters = (refl, refl);
  bases = (ground arith, ground arith);
  kept = λ a h. ground arith;
  dirty = λ h. ground (arith, ==_iff (words start) 0);
}
