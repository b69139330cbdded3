-- ===== src/Plog.antt =====
-- The redo log, src/plog_t.hpp and src/plog_t.cpp: pairs of a cache line's address and its value,
-- kept in chains of blocks (`Chain`). Log 0 is the checkpointing thread's, log `i + 1` that of user
-- thread `i`.
pub mod Replay
pub mod Management
use escort.Prelude.{ℕ, zero, suc, ◌*◌, Option, List, [], ◌∷◌, update, ltb, if◌then◌else◌}
use escort.Address.{add_addr}
use escort.Chain.{Store, Block, push_back, clear}

-- The 64 bytes of a line read as one number, and a memory by the addresses at which lines begin.
abbrev pub Cacheline : Type 0
Cacheline = ℕ

abbrev pub Memory : Type 0
Memory = ℕ → Cacheline

-- `entry_t`
pub record Entry : Type 0 where
  pub addr : ℕ
  pub val : Cacheline

abbrev pub log_block_num : ℕ
log_block_num = 4096 * 8

abbrev pub Plogs : Type 0
Plogs = Store (Unit {0}) Entry

unfoldable pub push_back_and_clwb : ℕ → Entry → Plogs → Option Plogs
push_back_and_clwb k e st = push_back log_block_num (λ h. h) k e st

unfoldable pub clear_log : ℕ → Plogs → Plogs
clear_log k st = clear k st

-- The constructor of `plog_management_t`: it pushes the blocks of the area in turn, and the
-- constructor of each block sets its size.
abbrev pub blocks : ℕ → List ℕ
blocks zero = []
blocks (suc n) = n ∷ blocks n

unfoldable pub management : ℕ → (ℕ → Block (Unit {0}) Entry) → Plogs
management num_blocks area = record {
  free = blocks num_blocks;
  used = [];
  block = λ b. if ltb b num_blocks then record (area b) { size = 0 } else area b;
  chain = λ _. [];
}

-- `replay_redo_log` of src/checkpointing.cpp: the first `n` entries of a block, then the blocks of a
-- log from its front on.
unfoldable pub replay_block : ℕ → Block (Unit {0}) Entry → ℕ → Memory → Memory
replay_block offset blk zero nvm = nvm
replay_block offset blk (suc n) nvm =
    let before = replay_block offset blk n nvm in
    update before (add_addr (blk.entries n).addr offset) (blk.entries n).val

unfoldable pub replay_blocks : ℕ → (ℕ → Block (Unit {0}) Entry) → List ℕ → Memory → Memory
unfolding replay_block
replay_blocks offset block [] nvm = nvm
replay_blocks offset block (b ∷ rest) nvm =
    replay_block offset (block b) (block b).size (replay_blocks offset block rest nvm)

unfoldable pub replay_redo_log : ℕ → ℕ → Plogs → Memory → Memory
unfolding replay_blocks
replay_redo_log offset k st nvm = replay_blocks offset st.block (st.chain k) nvm
