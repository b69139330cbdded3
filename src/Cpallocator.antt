-- ===== src/Cpallocator.antt =====
-- The allocator's part of the checkpoint, src/cpallocator_t.cpp: the logs of the epoch that ends are
-- compared with the bytes of its blocks, and then bring the size map in NVM up to date.
pub mod Bytes
pub mod Scanned
pub mod Judged
pub mod Logs
pub mod Visits
pub mod Total
pub mod Sizes
pub mod Update
use escort.Prelude.{
  ℕ, zero, suc, ◌+◌, ◌-◌, ◌<◌, Bool, true, false, Option, none, some, List, [], ◌∷◌, ltb, ◌==◌,
  if◌then◌else◌, update, ◌>>=◌, ◌>>◌,
}
use escort.Address.{get_index}
use escort.Bytemap
use escort.Bytemap.{Bytemap, set_obj_size}
use escort.Chain.{Store, Block}
use escort.Allocatorlog
use escort.Allocatorlog.{Allocatorlogs, AllocEntry, log_of}
use escort.World.{put, prev_of}
use escort.Allocator.{Jemalloc, AllocWorld}

-- One round of the inner loop: the entry, and the map of bytes.
unfoldable pub check_entry : AllocEntry → Bytemap → Option (AllocEntry × Bytemap)
check_entry entry bytes = do
  index ← get_index entry.addr
  let entry' = if Bytemap.is_set bytes index then entry else record entry { is_valid = false }
  some (entry', Bytemap.clear index bytes)

-- The loop over the entries `i`, `i + 1`, … of a block, `fuel` of them.
unfoldable pub check_block :
    ℕ → ℕ → Block ℕ AllocEntry → Bytemap → Option (Block ℕ AllocEntry × Bytemap)
check_block zero i block bytes = some (block, bytes)
check_block (suc fuel) i block bytes = do
  (entry', bytes') ← check_entry (block.entries i) bytes
  check_block fuel (suc i) (record block { entries = update block.entries i entry' }) bytes'

-- From the front of the list on, which is written with its back first.
unfoldable pub check_blocks : List ℕ → Allocatorlogs → Bytemap → Option (Allocatorlogs × Bytemap)
unfolding check_block
check_blocks [] st bytes = some (st, bytes)
check_blocks (b ∷ bs) st bytes = do
  (st₁, bytes₁) ← check_blocks bs st bytes
  (block', bytes') ← check_block (st₁.block b).size 0 (st₁.block b) bytes₁
  some (record st₁ { block = update st₁.block b block' }, bytes')

unfoldable pub check_threads :
    Bool → List ℕ → Allocatorlogs → Bytemap → Option (Allocatorlogs × Bytemap)
unfolding check_blocks
check_threads prev [] st bytes = some (st, bytes)
check_threads prev (i ∷ is) st bytes = do
  (st', bytes') ← check_blocks (st.chain (log_of i prev)) st bytes
  check_threads prev is st' bytes'

unfoldable pub apply_entries : ℕ → ℕ → Block ℕ AllocEntry → Bytemap → Option Bytemap
apply_entries zero i block nvm = some nvm
apply_entries (suc fuel) i block nvm = do
  index ← get_index (block.entries i).addr
  nvm' ← set_obj_size index (block.entries i).size nvm
  apply_entries fuel (suc i) block nvm'

unfoldable pub apply_blocks : List ℕ → Allocatorlogs → Bytemap → Option Bytemap
unfolding apply_entries
apply_blocks [] st nvm = some nvm
apply_blocks (b ∷ bs) st nvm = do
  nvm₁ ← apply_blocks bs st nvm
  apply_entries (st.block b).size 0 (st.block b) nvm₁

unfoldable pub apply_threads :
    Bool → List ℕ → Allocatorlogs → Bytemap → Option (Allocatorlogs × Bytemap)
unfolding apply_blocks
apply_threads prev [] st nvm = some (st, nvm)
apply_threads prev (i ∷ is) st nvm = do
  nvm' ← apply_blocks (st.chain (log_of i prev)) st nvm
  apply_threads prev is (Allocatorlog.clear (log_of i prev) st) nvm'

module _ (J : Jemalloc) where
  open J use {Heap}

  unfoldable pub check_valid : List ℕ → AllocWorld Heap → Option (AllocWorld Heap)
  unfolding check_threads
  check_valid ctx_array w = do
    let prev = prev_of w.global_epoch
    (logs', bytes') ← check_threads prev ctx_array w.logs (w.bytemap prev)
    some (record w { logs = logs'; bytemap = put prev bytes' w.bytemap })

  unfoldable pub checkpointing : List ℕ → AllocWorld Heap → Option (AllocWorld Heap)
  unfolding apply_threads
  checkpointing ctx_array w = do
    (logs', nvm') ← apply_threads (prev_of w.global_epoch) ctx_array w.logs w.bytemap_nvm
    some (record w { logs = logs'; bytemap_nvm = nvm' })
