-- ===== src/Master.antt =====
-- The checkpointing thread, `checkpointing` and `finalize` of src/checkpointing.cpp, where no user thread
-- takes a step meanwhile: the three words of the global epoch, the wait, and the two phases of the heap.
-- The allocator's part runs on state of its own (`Allocator`, `Cpallocator`).
pub mod Round
use escort.Prelude.{
  ℕ, ◌+◌, ◌%◌, ◌^◌, Bool, true, false, not, ◌&&◌, Option, none, some, List, [], ◌∷◌, ◌++◌, assert,
  ◌>>=◌, ◌>>◌,
}
use escort.Epoch.{multi_epoch_existence, log_persistence, nvm_heap_update, set_phase}
use escort.World.{World}
use escort.RedoLog.{RedoLogs}
use escort.Checkpoint.{is_waited_for, log_persistence_unit, nvm_heap_update_unit}

-- `wait_previous_epoch_transactions` ends.
abbrev pub wait_ends : ℕ → List ℕ → (ℕ → ℕ) → Bool
wait_ends e [] thread_epoch = true
wait_ends e (i ∷ rest) thread_epoch =
    not (is_waited_for e (thread_epoch i)) && wait_ends e rest thread_epoch

module _ (L : RedoLogs) (offset : ℕ) (ctxs : List ℕ) where
  open L use {State}

  abbrev pub store_epoch : ℕ → World State → World State
  store_epoch e w = record w { global_epoch = e }

  -- The two phases, from the word that `epoch` then is.
  unfoldable pub persist : ℕ → World State → Option (ℕ × World State)
  persist e w = do
    w₁ ← log_persistence_unit L ctxs (store_epoch e w)
    e' ← set_phase e nvm_heap_update
    some (e', nvm_heap_update_unit L offset ctxs (store_epoch e' w₁))

  -- One round of the loop of `checkpointing`; `none` also where the wait does not end, since no thread
  -- moves.
  unfoldable pub round : ℕ → World State → Option (ℕ × World State)
  round e w = do
    e₁ ← set_phase ((e + 1) % 2 ^ 64) multi_epoch_existence
    assert (wait_ends e₁ ctxs w.thread_epoch)
    e₂ ← set_phase e₁ log_persistence
    persist e₂ (store_epoch e₁ w)

  unfoldable pub finalize : ℕ → World State → Option (ℕ × World State)
  finalize e w = do e₁ ← set_phase ((e + 1) % 2 ^ 64) log_persistence; persist e₁ w

-- `init_userthreadctx`: the new thread is the last of `_ctx_array`.
abbrev pub init_userthreadctx : ℕ → List ℕ → List ℕ
init_userthreadctx i ctxs = ctxs ++ i ∷ []
