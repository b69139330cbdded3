-- ===== src/Userthread.antt =====
-- The operations of a user thread on the heap, src/userthreadctx_t.cpp: `mark` before a write, and
-- the bounds of an operation. The retry of `begin_op` is in `EpochProtocol`.
pub mod Mark
pub mod Total
use escort.Prelude.{
  ℕ, zero, suc, ◌+◌, ◌-◌, ◌/◌, ◌%◌, ◌^◌, Bool, true, false, not, ◌||◌, Option, none, some, ◌==◌,
  if◌then◌else◌, update, assert, ◌>>=◌, ◌>>◌,
}
use escort.Address.{cache_line_size, log_cache_line_size, add_addr, get_index}
use escort.Bitmap
use escort.Bitmap.{is_set}
use escort.Addrlist
use escort.World.{World, put, curr_of}
use escort.RedoLog.{RedoLogs}

-- `(size + CACHE_LINE_SIZE - 1) >> LOG_CACHE_LINE_SIZE`
abbrev pub num_bits_of : ℕ → ℕ
num_bits_of size = (size + cache_line_size - 1) % 2 ^ 64 / 2 ^ log_cache_line_size

module _ (L : RedoLogs) where
  open L use {State, push_back_and_clwb}

  -- The inner branch of the loop of `mark`: if the line was marked in the previous epoch and is not
  -- yet logged, its old value goes to the log of thread `i` (`CoW`).
  unfoldable pub copy_on_write : ℕ → Bool → ℕ → ℕ → World State → Option (World State)
  copy_on_write i prev addr index w =
      if is_set (w.bitmap prev) index
      then (do
        let old_val = w.dram addr
        let cleared = put prev (Bitmap.clear index (w.bitmap prev)) w.bitmap
        logs' ← push_back_and_clwb (suc i) (record { addr = addr; val = old_val }) w.logs
        some (record w { bitmap = cleared; logs = logs' }))
      else some w

  -- One round of the loop of `mark`, with whether it set a bit.
  unfoldable pub mark_line : ℕ → Bool → ℕ → ℕ → World State → Option (Bool × World State)
  unfolding copy_on_write
  mark_line i curr addr index w = if is_set (w.bitmap curr) index then some (false, w) else (do
    w' ← copy_on_write i (not curr) addr index w
    b ← Bitmap.set index (w'.bitmap curr)
    some (true, record w' { bitmap = put curr b w'.bitmap }))

  -- The loop, over the lines that are left.
  unfoldable pub mark_lines :
      ℕ → ℕ → Bool → ℕ → ℕ → Bool → World State → Option (Bool × World State)
  unfolding mark_line
  mark_lines zero i curr addr index is_append_list w = some (is_append_list, w)
  mark_lines (suc n) i curr addr index is_append_list w = do
    (has_set, w') ← mark_line i curr addr index w
    mark_lines n i curr (add_addr addr cache_line_size) (suc index) (is_append_list || has_set) w'

  unfoldable pub mark : ℕ → ℕ → ℕ → World State → Option (World State)
  unfolding mark_lines curr_of get_index
  mark i addr size w = do
    let epoch = w.thread_epoch i
    assert (not (epoch == 0))
    let curr = curr_of epoch
    index ← get_index addr
    let base = addr - addr % cache_line_size
    let num_bits = num_bits_of size
    (is_append_list, w') ← mark_lines num_bits i curr base index false w
    let list' = put curr (Addrlist.append (base, num_bits) (w'.addrlist i curr)) (w'.addrlist i)
    some (if is_append_list then record w' { addrlist = update w'.addrlist i list' } else w')

  -- `end_op`
  unfoldable pub end_op : ℕ → World State → Option (World State)
  end_op i w = do
    assert (not (w.thread_epoch i == 0))
    some (record w { thread_epoch = update w.thread_epoch i 0 })
