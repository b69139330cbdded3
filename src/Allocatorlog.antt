-- ===== src/Allocatorlog.antt =====
-- The allocator log, src/allocatorlog_t.hpp and src/allocatorlog_t.cpp: which blocks were allocated
-- or freed in an epoch, in chains of log blocks (`Chain`) that carry the epoch. Log `2 i` is that of
-- thread `i` for the even epochs, log `2 i + 1` for the odd ones.
pub mod Management
use escort.Prelude.{
  ℕ, zero, suc, ◌+◌, ◌*◌, Bool, true, false, Option, List, [], ◌∷◌, length, update, ltb,
  if◌then◌else◌,
}
use escort.Chain.{Store, Block, push_back}
use escort.Chain
use escort.Plog.{blocks}

-- `entry_t`
pub record AllocEntry : Type 0 where
  pub addr : ℕ
  pub size : ℕ
  pub is_valid : Bool

abbrev pub allocator_log_block_num : ℕ
allocator_log_block_num = 4096 * 16

abbrev pub Allocatorlogs : Type 0
Allocatorlogs = Store ℕ AllocEntry

-- `_allocatorlog[id]` of thread `i`
abbrev pub log_of : ℕ → Bool → ℕ
log_of i true = 2 * i + 1
log_of i false = 2 * i

unfoldable pub append : ℕ → ℕ → ℕ → ℕ → Allocatorlogs → Option Allocatorlogs
append k addr size epoch st =
    push_back allocator_log_block_num (λ _. epoch) k
      (record { addr = addr; size = size; is_valid = true }) st

unfoldable pub clear : ℕ → Allocatorlogs → Allocatorlogs
clear k st = Chain.clear k st

-- The constructor of `allocatorlog_management_t`.
unfoldable pub management : ℕ → (ℕ → Block ℕ AllocEntry) → Allocatorlogs
management num_blocks area = record {
  free = blocks num_blocks;
  used = [];
  block = λ b. if ltb b num_blocks then record (area b) { size = 0 } else area b;
  chain = λ _. [];
}

abbrev pub num_used_alloc_logs : Allocatorlogs → ℕ
num_used_alloc_logs st = length st.used
