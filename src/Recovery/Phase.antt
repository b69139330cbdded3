-- ===== src/Recovery/Phase.antt =====
-- Whether recovery replays the redo logs.
use escort.Prelude.{ℕ, ◌≡◌, some, arith}
use escort.Epoch.Phase.{get_phase-epoch}
use escort.Plog.{Plogs, Memory}
use escort.Recovery.{recover_logs}

-- Whatever phase the word in the file has, the branch leaves the logs and the heap in NVM as they are:
-- no redo log is replayed.
pub recover_logs_skips :
    (offset e : ℕ) (st : Plogs) (nvm : Memory) → recover_logs offset e st nvm ≡ some (st, nvm)
unfolding recover_logs
recover_logs_skips offset e st nvm = ground (arith, get_phase-epoch e)
