-- ===== src/NvmConfig.antt =====
-- The file in NVM, src/nvm/config.cpp and src/nvm/config.hpp: where its areas begin, the words before
-- and after the heap, and the space that is handed out behind them. Words are 8 bytes, memory is read
-- and written by words at their addresses.
pub mod Layout
pub mod Open
use escort.Prelude.{
  ℕ, ◌+◌, ◌-◌, ◌%◌, ◌^◌, Bool, true, false, not, Option, some, ltb, ◌==◌, if◌then◌else◌, update,
  assert, ◌>>=◌, ◌>>◌,
}
use escort.Address.{cache_line_size, dram_base}

pub record Config : Type 0 where
  pub start_address : ℕ
  pub nvm_size : ℕ
  pub dram_space_addr : ℕ
  pub nvm_space_addr : ℕ
  pub g_epoch_pointer_addr : ℕ
  pub bytemap_pointer_addr : ℕ
  pub root_pointer_addr : ℕ
  pub nvm_space : ℕ
  pub persist_num_addr : ℕ
  pub user_num_addr : ℕ
  pub tmp_space : ℕ
  pub is_dirty : Bool
  pub words : ℕ → ℕ

abbrev pub store : ℕ → ℕ → Config → Config
store a v c = record c { words = update c.words a v }

-- To the next line, unless `a` is the start of one.
abbrev pub aligned : ℕ → ℕ
aligned a =
    if not (a % cache_line_size == 0) then a + (cache_line_size - a % cache_line_size) else a

-- `check_dirty` and `create_area` on a file of `nvm_size` bytes mapped at `start`.
unfoldable pub create_area : ℕ → ℕ → ℕ → (ℕ → ℕ) → Config
create_area start nvm_size heap_size words =
    let nvm_space : ℕ = aligned (start + 8 + 8 + 8 + 8 + 8) in
    record {
      start_address = start;
      nvm_size = nvm_size;
      dram_space_addr = start;
      nvm_space_addr = start + 8;
      g_epoch_pointer_addr = start + 8 + 8;
      bytemap_pointer_addr = start + 8 + 8 + 8;
      root_pointer_addr = start + 8 + 8 + 8 + 8;
      nvm_space = nvm_space;
      persist_num_addr = nvm_space + heap_size;
      user_num_addr = nvm_space + heap_size + 8;
      tmp_space = nvm_space + heap_size + 8 + 8;
      is_dirty = not (words start == 0);
      words = update (update words start dram_base) (start + 8) nvm_space;
    }

-- `malloc`: the assertion is about what was handed out before. Addresses and sizes have 64 bits.
unfoldable pub malloc : ℕ → Config → Option (ℕ × Config)
malloc size c = do
  let whole_size = (c.tmp_space + 2 ^ 64 - c.start_address % 2 ^ 64) % 2 ^ 64
  assert (ltb whole_size c.nvm_size)
  some (c.tmp_space, record c { tmp_space = (c.tmp_space + size) % 2 ^ 64 })

abbrev pub set_root_pointer : ℕ → Config → Config
set_root_pointer p c = store c.root_pointer_addr p c

abbrev pub set_bytemap_pointer : ℕ → Config → Config
set_bytemap_pointer p c = store c.bytemap_pointer_addr p c

abbrev pub get_roottable : Config → ℕ
get_roottable c = c.words c.root_pointer_addr

abbrev pub add_user_num : Config → Config
add_user_num c = store c.user_num_addr ((c.words c.user_num_addr + 1) % 2 ^ 64) c

abbrev pub reset_thread_num : Config → Config
reset_thread_num c = store c.user_num_addr 0 (store c.persist_num_addr 0 c)

abbrev pub set_checkpointing_thread : ℕ → Config → Config
set_checkpointing_thread n c = store c.persist_num_addr n c
