-- ===== src/LineRace.antt =====
-- One line of the heap, used by one user thread, access by access: the round of `mark` for the line and
-- the writes behind it (src/userthreadctx_t.cpp), beside the visit of the line by
-- `log_persistence_unit` and `nvm_heap_update_unit` (src/checkpointing.cpp). `Durability` takes the
-- round of `mark` and the visit as one step each; here they interleave.
pub mod Invariant
pub mod ThreadSteps
pub mod CheckpointSteps
pub mod Safety
pub mod Loss
pub mod Rounds
use escort.Prelude.{◌≡◌, ◌⊎◌, Bool, true, false, List, [], ◌∷◌, ◌++◌, if◌then◌else◌}
use escort.Plog.{Cacheline}

-- Where the thread is in `mark`: before the test of the bit of its own epoch, before that of the
-- previous one, before `clear`, before the copy of the old value, before `push_back_and_clwb` of it,
-- before `set`, or behind `mark`, where it may write.
pub data Marking : Type 0 where
  testing_curr : Marking
  testing_prev : Marking
  clearing_prev : Marking
  copying : Marking
  pushing : (old_val : Cacheline) → Marking
  setting_curr : Marking
  writing : Marking

-- Where the checkpointing thread is: at the visit of the line, or in the update of NVM.
pub data Logging : Type 0 where
  testing : Logging
  reading : Logging
  logging : (value : Cacheline) → Logging
  clearing : Logging
  replaying : Logging
  replaying_thread : Logging
  clearing_log : Logging
  clearing_thread : Logging
  ended : Logging

-- The values for the line in a log, oldest first, are what the log says of the line.
abbrev pub replay : List Cacheline → Cacheline → Cacheline
replay [] nvm = nvm
replay (v ∷ vs) nvm = replay vs v

-- The thread will add an entry to its log.
abbrev pub is_logging : Marking → Bool
is_logging testing_curr = false
is_logging testing_prev = false
is_logging clearing_prev = true
is_logging copying = true
is_logging (pushing old_val) = true
is_logging setting_curr = false
is_logging writing = false

-- `prev` and `curr` are the bits of the line in the two bitmaps. Two fields record the past:
-- `snapshot` is the value of the line when the epoch began, and `overtaken` says whether the log of
-- the thread has been replayed, in this epoch or before, while the thread was about to add an entry.
pub record Line : Type 0 where
  pub dram : Cacheline
  pub nvm : Cacheline
  pub prev : Bool
  pub curr : Bool
  pub log : List Cacheline
  pub thread_log : List Cacheline
  pub marking : Marking
  pub logging : Logging
  pub snapshot : Cacheline
  pub overtaken : Bool

pub data Step (s : Line) : Line → Type 0 where
  -- The round of `mark`.
  marked : s.marking ≡ testing_curr → s.curr ≡ true → Step s (record s { marking = writing })
  unmarked :
      s.marking ≡ testing_curr → s.curr ≡ false → Step s (record s { marking = testing_prev })
  found_logged :
      s.marking ≡ testing_prev → s.prev ≡ false → Step s (record s { marking = setting_curr })
  found_unlogged :
      s.marking ≡ testing_prev → s.prev ≡ true → Step s (record s { marking = clearing_prev })
  clear_prev : s.marking ≡ clearing_prev → Step s (record s { prev = false; marking = copying })
  copy : s.marking ≡ copying → Step s (record s { marking = pushing s.dram })
  push :
      (old_val : Cacheline)
      → s.marking ≡ pushing old_val
      → Step s (record s { thread_log = s.thread_log ++ old_val ∷ []; marking = setting_curr })
  set_curr : s.marking ≡ setting_curr → Step s (record s { curr = true; marking = writing })
  write : (val : Cacheline) → s.marking ≡ writing → Step s (record s { dram = val })
  mark_again : s.marking ≡ writing → Step s (record s { marking = testing_curr })
  -- The visit of the line.
  visit_unset : s.logging ≡ testing → s.prev ≡ false → Step s (record s { logging = replaying })
  visit_set : s.logging ≡ testing → s.prev ≡ true → Step s (record s { logging = reading })
  read_value : s.logging ≡ reading → Step s (record s { logging = logging s.dram })
  push_value :
      (value : Cacheline)
      → s.logging ≡ logging value
      → Step s (record s { log = s.log ++ value ∷ []; logging = clearing })
  clear_visited : s.logging ≡ clearing → Step s (record s { prev = false; logging = replaying })
  -- `nvm_heap_update_unit`
  replay_log :
      s.logging ≡ replaying
      → Step s (record s { nvm = replay s.log s.nvm; logging = replaying_thread })
  replay_thread_log :
      s.logging ≡ replaying_thread
      → Step s (record s {
        nvm = replay s.thread_log s.nvm;
        logging = clearing_log;
        overtaken = if is_logging s.marking then true else s.overtaken;
      })
  clear_log : s.logging ≡ clearing_log → Step s (record s { log = []; logging = clearing_thread })
  clear_thread_log :
      s.logging ≡ clearing_thread → Step s (record s { thread_log = []; logging = ended })
  -- The next epoch and its wait: the thread is not in `mark`, and the bitmaps exchange their roles.
  next_epoch :
      s.logging ≡ ended
      → (s.marking ≡ writing) ⊎ (s.marking ≡ testing_curr)
      → Step s (record s {
        prev = s.curr;
        curr = s.prev;
        marking = testing_curr;
        logging = testing;
        snapshot = s.dram;
      })

-- A marked or unmarked line at the beginning of an epoch.
pub record IsInitial (s : Line) : Type 0 where
  pub curr_unmarked : s.curr ≡ false
  pub current : s.snapshot ≡ s.dram
  pub stored : s.prev ≡ false → s.nvm ≡ s.snapshot
  pub log_empty : s.log ≡ []
  pub thread_log_empty : s.thread_log ≡ []
  pub enters : s.marking ≡ testing_curr
  pub begins : s.logging ≡ testing
  pub not_overtaken : s.overtaken ≡ false

pub data Reach : Line → Type 0 where
  start : {s : Line} → IsInitial s → Reach s
  later : {s t : Line} → Reach s → Step s t → Reach t
