-- ===== src/EpochProtocol.antt =====
-- How user threads and the checkpointing thread agree on epochs: `begin_op` and `end_op` of
-- src/userthreadctx_t.cpp and `wait_previous_epoch_transactions` of src/checkpointing.cpp, a shared
-- access at a time. Accesses are sequentially consistent, as the code asks for those of `begin_op`.
pub mod Invariant
use escort.Prelude.{ℕ, ◌+◌, ◌<◌, ◌≡◌, ◌≢◌, Bool, true, false, update}
use escort.Epoch.{epoch}
use escort.Checkpoint.{is_waited_for}

-- Where a thread stands: outside of an operation, in the loop of `begin_op` after the load of the
-- global epoch or after its own store, or within an operation.
pub data Pc : Type 0 where
  outside : Pc
  loaded : (e : ℕ) → Pc
  published : (e : ℕ) → Pc
  inside : (e : ℕ) → Pc

pub record System : Type 0 where
  pub global_epoch : ℕ
  pub thread_epoch : ℕ → ℕ
  pub pc : ℕ → Pc
  -- the threads that the loop of `wait_previous_epoch_transactions` has passed
  pub passed : ℕ → Bool

abbrev pub at : System → ℕ → Pc → System
at s i p = record s { pc = update s.pc i p }

-- `n` is the number of registered threads.
pub data Step (n : ℕ) (s : System) : System → Type 0 where
  load : (i : ℕ) → s.pc i ≡ outside → Step n s (at s i (loaded s.global_epoch))
  publish :
      (i e : ℕ)
      → s.pc i ≡ loaded e
      → Step n s
          (record s { thread_epoch = update s.thread_epoch i e; pc = update s.pc i (published e) })
  enter : (i e : ℕ) → s.pc i ≡ published e → e ≡ s.global_epoch → Step n s (at s i (inside e))
  retry :
      (i e : ℕ)
      → s.pc i ≡ published e
      → e ≢ s.global_epoch
      → Step n s (at s i (loaded s.global_epoch))
  leave :
      (i e : ℕ)
      → s.pc i ≡ inside e
      → Step n s (record s { thread_epoch = update s.thread_epoch i 0; pc = update s.pc i outside })
  -- The loop of the wait passes thread `i`.
  pass :
      (i : ℕ)
      → i < n
      → is_waited_for s.global_epoch (s.thread_epoch i) ≡ false
      → Step n s (record s { passed = update s.passed i true })
  -- The wait is over, and the phase changes.
  change_phase : (e : ℕ) → epoch e ≡ epoch s.global_epoch → Step n s (record s { global_epoch = e })
  -- The next epoch begins, with a new wait.
  advance :
      (e : ℕ)
      → ((i : ℕ) → i < n → s.passed i ≡ true)
      → epoch e ≡ epoch s.global_epoch + 1
      → Step n s (record s { global_epoch = e; passed = λ _. false })

-- `GLOBAL_EPOCH = 2` of `escort_init`, where no thread runs.
abbrev pub init : System
init = record { global_epoch = 2; thread_epoch = λ _. 0; pc = λ _. outside; passed = λ _. true }

pub data Reach (n : ℕ) : System → Type 0 where
  start : Reach n init
  later : {s t : System} → Reach n s → Step n s t → Reach n t
