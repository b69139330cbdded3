-- ===== src/Startup/Crash.antt =====
-- A crash of the running system and the restart on the file that it leaves.
use escort.Prelude.{Bool, true, false}
use escort.Plog.{Plogs}
use escort.World.{World}
use escort.Durability.{Phase, resting, waiting, logging, replaying, clearing}

-- The update of NVM from the logs has begun and has not ended.
abbrev pub is_updating : Phase → Bool
is_updating resting = false
is_updating waiting = false
is_updating (logging ts) = false
is_updating (replaying ids) = true
is_updating (clearing ids) = true
