-- ===== src/Snapshot.antt =====
-- The checkpoint of an epoch beside user threads that are in the next one: the steps of both in any
-- order, from the start of `Log_Persistence` on. A step is one round of a loop of
-- `log_persistence_unit` or of `mark`, or a write to a line that is marked in the new epoch.
pub mod Entries
pub mod Steps
pub mod Update
pub mod Cycle
pub mod Visits
use escort.Prelude.{
  ℕ, zero, suc, ◌+◌, ◌-◌, ◌*◌, ◌/◌, ◌<◌, ◌≡◌, ◌⊎◌, Bool, true, false, not, ◌||◌, some, List, [],
  ◌∷◌, map, ◌==◌, if◌then◌else◌, update, count, All,
}
use escort.Address.{cache_line_size, dram_base, num_lines, line_addr, add_addr}
use escort.Bitmap.{is_set}
use escort.Plog.{Entry, Memory, Cacheline}
use escort.World.{World}
use escort.RedoLog.{RedoLogs}
use escort.Userthread.{mark_line}
use escort.Checkpoint.{log_line}

-- The line of an entry, and where line `l` lies in NVM.
abbrev pub line_of : Entry → ℕ
line_of e = (e.addr - dram_base) / cache_line_size

abbrev pub nvm_addr : ℕ → ℕ → ℕ
nvm_addr offset l = add_addr (line_addr l) offset

-- An entry for a line of the heap with the value of that line in the snapshot.
abbrev pub IsOf : (ℕ → Cacheline) → Entry → Type 0
IsOf snapshot e =
    (e.addr ≡ line_addr (line_of e)) × (line_of e < num_lines) × (e.val ≡ snapshot (line_of e))

abbrev pub holds : ℕ → List Entry → Bool
holds l [] = false
holds l (e ∷ es) = (line_of e == l) || holds l es

-- The log of the checkpointing thread and those of the user threads.
abbrev pub log_ids : List ℕ → List ℕ
log_ids ctxs = 0 ∷ map suc ctxs

module _ (L : RedoLogs) (offset : ℕ) (ctxs : List ℕ) (prev : Bool) where
  open L use {State, Valid, contents}

  -- Line `l` of the snapshot is in NVM, is still to be logged, or is in a log.
  pub data Kept (snapshot : ℕ → Cacheline) (w : World State) (l : ℕ) : Type 0 where
    stored : w.nvm (nvm_addr offset l) ≡ snapshot l → Kept snapshot w l
    pending : is_set (w.bitmap prev) l ≡ true → Kept snapshot w l
    logged :
        (k : ℕ)
        → 0 < count k (log_ids ctxs)
        → holds l (contents k w.logs) ≡ true
        → Kept snapshot w l

  -- `snapshot` is the heap at the end of the previous epoch; `todo` are the lines that the loops of
  -- `log_persistence_unit` have yet to visit.
  pub record Inv (snapshot : ℕ → Cacheline) (w : World State) (todo : List ℕ) : Type 0 where
    pub valid : Valid w.logs
    pub unwritten :
        (l : ℕ)
        → l < num_lines
        → is_set (w.bitmap (not prev)) l ≡ false
        → w.dram (line_addr l) ≡ snapshot l
    pub apart : (l : ℕ) → is_set (w.bitmap prev) l ≡ true → is_set (w.bitmap (not prev)) l ≡ false
    pub planned : (l : ℕ) → is_set (w.bitmap prev) l ≡ true → 0 < count l todo
    pub entries : (k : ℕ) → 0 < count k (log_ids ctxs) → All (IsOf snapshot) (contents k w.logs)
    pub kept : (l : ℕ) → l < num_lines → Kept snapshot w l

  pub data Step (w : World State) : List ℕ → World State → List ℕ → Type 0 where
    visit :
        {l : ℕ} {todo : List ℕ} {w' : World State}
        → l < num_lines
        → log_line L prev (line_addr l) l w ≡ some w'
        → Step w (l ∷ todo) w' todo
    mark :
        {todo : List ℕ} {w' : World State} (i l : ℕ) (has_set : Bool)
        → 0 < count i ctxs
        → l < num_lines
        → mark_line L i (not prev) (line_addr l) l w ≡ some (has_set, w')
        → Step w todo w' todo
    write :
        {todo : List ℕ} (l : ℕ) (val : Cacheline)
        → l < num_lines
        → is_set (w.bitmap (not prev)) l ≡ true
        → Step w todo (record w { dram = update w.dram (line_addr l) val }) todo

  pub data Reach (w : World State) (todo : List ℕ) : World State → List ℕ → Type 0 where
    start : Reach w todo w todo
    later :
        {w₁ w₂ : World State} {todo₁ todo₂ : List ℕ}
        → Reach w todo w₁ todo₁
        → Step w₁ todo₁ w₂ todo₂
        → Reach w todo w₂ todo₂
