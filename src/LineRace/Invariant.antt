-- ===== src/LineRace/Invariant.antt =====
-- An invariant of the accesses of src/userthreadctx_t.cpp and src/checkpointing.cpp to one line: where the
-- value is that the checkpoint has to store.
use escort.Prelude.{◌≡◌, ◌⊎◌, true, false, [], ◌∷◌}
use escort.LineRace.{
  Marking, testing_curr, testing_prev, clearing_prev, copying, pushing, setting_curr, writing,
  Logging, testing, reading, logging, clearing, replaying, replaying_thread, clearing_log,
  clearing_thread, ended, replay, is_logging, Line,
}

-- The entry of the thread is in its log, or will be.
abbrev pub Kept : Line → Type 0
Kept s = (s.thread_log ≡ s.snapshot ∷ []) ⊎ (is_logging s.marking ≡ true)

-- What is known where the thread stands.
abbrev pub Place : Line → Marking → Type 0
Place s testing_curr = Unit
Place s testing_prev = s.curr ≡ false
Place s clearing_prev = (s.curr ≡ false) × (s.thread_log ≡ [])
Place s copying = (s.curr ≡ false) × (s.prev ≡ false) × (s.thread_log ≡ [])
Place s (pushing old_val) =
    (s.curr ≡ false) × (s.prev ≡ false) × (s.thread_log ≡ []) × (old_val ≡ s.snapshot)
Place s setting_curr = (s.curr ≡ false) × (s.prev ≡ false)
Place s writing = s.curr ≡ true

-- And where the checkpointing thread stands.
abbrev pub Progress : Line → Logging → Type 0
Progress s testing = (s.prev ≡ true) ⊎ ((replay s.log s.nvm ≡ s.snapshot) ⊎ Kept s)
Progress s reading = (s.prev ≡ true) ⊎ Kept s
Progress s (logging value) = (value ≡ s.snapshot) ⊎ Kept s
Progress s clearing = (replay s.log s.nvm ≡ s.snapshot) ⊎ Kept s
Progress s replaying = (s.prev ≡ false) × ((replay s.log s.nvm ≡ s.snapshot) ⊎ Kept s)
Progress s replaying_thread = (s.prev ≡ false) × ((s.nvm ≡ s.snapshot) ⊎ Kept s)
Progress s clearing_log = (s.prev ≡ false) × (is_logging s.marking ≡ false) × (s.nvm ≡ s.snapshot)
Progress s clearing_thread =
    (s.prev ≡ false) × (is_logging s.marking ≡ false) × (s.nvm ≡ s.snapshot) × (s.log ≡ [])
Progress s ended =
    (s.prev ≡ false)
    × (is_logging s.marking ≡ false)
    × (s.nvm ≡ s.snapshot)
    × (s.log ≡ [])
    × (s.thread_log ≡ [])

pub record Inv (s : Line) : Type 0 where
  pub unwritten : s.curr ≡ false → s.dram ≡ s.snapshot
  pub unmarked : s.prev ≡ true → s.curr ≡ false
  pub unlogged : s.prev ≡ true → s.thread_log ≡ []
  pub logged : (s.thread_log ≡ []) ⊎ (s.thread_log ≡ s.snapshot ∷ [])
  pub place : Place s s.marking
  pub progress : Progress s s.logging
