-- ===== src/Checkpoint.antt =====
-- The checkpoint of the heap, src/checkpointing.cpp: the lines marked in the previous epoch are
-- logged, the redo logs are replayed on the heap in NVM, and cleared. `ctxs` is `_ctx_array`; the
-- build is the one with one checkpointing thread (`is_unit`) and without `OLD_VERSION`.
use escort.Prelude.{
  ℕ, zero, suc, ◌+◌, ◌-◌, ◌%◌, ◌^◌, Bool, Option, some, List, [], ◌∷◌, ◌==◌, if◌then◌else◌, update,
  ◌>>=◌,
}
use escort.Address.{cache_line_size, add_addr, get_index}
use escort.Epoch.{epoch}
use escort.Bitmap
use escort.Bitmap.{is_set}
use escort.Addrlist.{Addrlist}
use escort.World.{World, put, prev_of}
use escort.RedoLog.{RedoLogs}

-- The test of the busy wait for thread `i`: it is still in the epoch before `e`.
abbrev pub is_waited_for : ℕ → ℕ → Bool
is_waited_for e thread = epoch thread == (epoch e + 2 ^ 64 - 1) % 2 ^ 64

module _ (L : RedoLogs) where
  open L use {State, push_back_and_clwb, replay}
  open L use {clear as clear_log}

  -- One round of the innermost loop of `log_persistence_unit`: a line whose bit is clear was logged
  -- by a user thread.
  unfoldable pub log_line : Bool → ℕ → ℕ → World State → Option (World State)
  log_line prev cl index w =
      if is_set (w.bitmap prev) index
      then (do
        logs' ← push_back_and_clwb 0 (record { addr = cl; val = w.dram cl }) w.logs
        let bitmap' = put prev (Bitmap.clear index (w.bitmap prev)) w.bitmap
        some (record w { logs = logs'; bitmap = bitmap' }))
      else some w

  unfoldable pub log_lines : ℕ → Bool → ℕ → ℕ → World State → Option (World State)
  log_lines zero prev cl index w = some w
  log_lines (suc n) prev cl index w = do
    w' ← log_line prev cl index w
    log_lines n prev (add_addr cl cache_line_size) (suc index) w'

  -- The loop over the regions of one thread.
  unfoldable pub log_regions : Bool → Addrlist → World State → Option (World State)
  log_regions prev [] w = some w
  log_regions prev ((addr, size) ∷ rest) w = do
    base ← get_index addr
    w' ← log_lines size prev addr base w
    log_regions prev rest w'

  -- The loop over the threads; the list of each is cleared after it.
  unfoldable pub log_threads : Bool → List ℕ → World State → Option (World State)
  log_threads prev [] w = some w
  log_threads prev (i ∷ rest) w = do
    w' ← log_regions prev (w.addrlist i prev) w
    log_threads prev rest
        (record w' { addrlist = update w'.addrlist i (put prev [] (w'.addrlist i)) })

  unfoldable pub log_persistence_unit : List ℕ → World State → Option (World State)
  log_persistence_unit ctxs w = log_threads (prev_of w.global_epoch) ctxs w

  -- The replay of the logs of the threads in turn.
  unfoldable pub replay_threads : ℕ → List ℕ → World State → World State
  replay_threads offset [] w = w
  replay_threads offset (i ∷ rest) w =
      replay_threads offset rest (record w { nvm = replay offset (suc i) w.logs w.nvm })

  unfoldable pub clear_threads : List ℕ → State → State
  clear_threads [] s = s
  clear_threads (i ∷ rest) s = clear_threads rest (clear_log (suc i) s)

  unfoldable pub clear_redo_logs : List ℕ → World State → World State
  clear_redo_logs ctxs w = record w { logs = clear_threads ctxs (clear_log 0 w.logs) }

  unfoldable pub nvm_heap_update_unit : ℕ → List ℕ → World State → World State
  nvm_heap_update_unit offset ctxs w =
      clear_redo_logs ctxs
        (replay_threads offset ctxs (record w { nvm = replay offset 0 w.logs w.nvm }))
