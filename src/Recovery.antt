-- ===== src/Recovery.antt =====
-- Recovery, src/recovery.cpp: the replay of the redo logs of all blocks, and the copy of the heap from
-- NVM to DRAM. `mprotect` of a page is a parameter.
pub mod Resume
pub mod Copy
pub mod Phase
use escort.Prelude.{
  ℕ, zero, suc, ◌+◌, ◌*◌, Bool, true, false, ◌&&◌, not, Option, some, ◌>>=◌, List, [], ◌∷◌, ◌==◌,
  if◌then◌else◌, update,
}
use escort.Epoch.{EpochPhase, log_persistence, epoch, get_phase}
use escort.Chain.{Store, Block}
use escort.Plog.{Plogs, Entry, Memory, replay_block}

-- `log_block_t::clear`
abbrev pub emptied : ℕ → Plogs → Plogs
emptied b st = record st { block = update st.block b (record (st.block b) { size = 0 }) }

-- The outer loop over a list of blocks, from its front on.
unfoldable pub replay_all : ℕ → List ℕ → Plogs → Memory → Plogs × Memory
replay_all offset [] st nvm = (st, nvm)
replay_all offset (b ∷ rest) st nvm =
    let before = replay_all offset rest st nvm in
    (emptied b before.0, replay_block offset (before.0.block b) (before.0.block b).size before.1)

unfoldable pub replay_redo_logs : ℕ → Plogs → Memory → Plogs × Memory
unfolding replay_all
replay_redo_logs offset st nvm = replay_all offset st.free st nvm

-- The branch of `escort_init` (src/Escort.cpp) on the phase of the word `e` that the file holds.
unfoldable pub recover_logs : ℕ → ℕ → Plogs → Memory → Option (Plogs × Memory)
recover_logs offset e st nvm = do
  phase ← get_phase (epoch e)
  some (elim phase [ log_persistence ↦ replay_redo_logs offset st nvm | _ ↦ (st, nvm) ])

abbrev pub block_size : ℕ
block_size = 4096

-- The inner loop over `n` bytes of a page from `start` on.
unfoldable pub copy_page : (ℕ → ℕ) → ℕ → ℕ → (ℕ → ℕ) → ℕ → ℕ
copy_page nvm start zero dram = dram
copy_page nvm start (suc n) dram =
    let before = copy_page nvm start n dram in
    if (before (start + n) == 0) && not (nvm (start + n) == 0)
    then update before (start + n) (nvm (start + n))
    else before

-- The outer loop over the first `n` pages; a page that `mprotect` refuses is passed over. Bytes are
-- counted from the start of the heap.
unfoldable pub copy : (ℕ → Bool) → (ℕ → ℕ) → ℕ → (ℕ → ℕ) → ℕ → ℕ
copy may_write nvm zero dram = dram
copy may_write nvm (suc n) dram =
    let before = copy may_write nvm n dram in
    if may_write n then copy_page nvm (n * block_size) block_size before else before
