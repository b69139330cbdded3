-- ===== src/Durability.antt =====
-- The whole of a running system: user threads that enter and leave operations (`EpochProtocol`), mark
-- regions and write (`Userthread`), beside the checkpointing thread with its wait, its logging and its
-- update of NVM (`Checkpoint`), a shared access or a round of a loop at a time, epoch after epoch.
pub mod Parity
pub mod Lines
pub mod Marks
pub mod Late
pub mod Resting
pub mod Listed
pub mod Regions
pub mod Frame
pub mod Invariant
pub mod Writes
pub mod MarkSteps
pub mod Steps
pub mod Phases
pub mod Replaying
pub mod Clearing
pub mod History
pub mod Refinement
pub mod Calls
use escort.Prelude.{
  ℕ, zero, suc, ◌+◌, ◌≤◌, ◌<◌, ◌≡◌, ◌⊎◌, Bool, true, false, not, ◌||◌, some, List, [], ◌∷◌, ◌++◌,
  if◌then◌else◌, update,
}
use escort.Address.{num_lines, line_addr}
use escort.Bitmap
use escort.Bitmap.{Bitmap, is_set}
use escort.Addrlist
use escort.Addrlist.{Addrlist, Region}
use escort.Epoch.{epoch}
use escort.Plog.{Cacheline}
use escort.World.{World, put, curr_of}
use escort.RedoLog.{RedoLogs}
use escort.Userthread.{mark_line}
use escort.Checkpoint.{log_line}
use escort.Snapshot
use escort.Snapshot.{log_ids}
use escort.Snapshot.Visits.{lines}
use escort.EpochProtocol
use escort.EpochProtocol.{System, inside}

-- `_ctx_array` after the registration of `n` threads.
abbrev pub threads : ℕ → List ℕ
threads zero = []
threads (suc n) = threads n ++ n ∷ []

-- What a thread does in its operation: it may be in the loop of `mark`, with `done` of the `num_bits`
-- lines from line `first` on behind it.
pub data Activity : Type 0 where
  free : Activity
  marking : (first num_bits done : ℕ) (is_append_list : Bool) → Activity

-- What the loops of `log_persistence_unit` have yet to do.
pub data Task : Type 0 where
  visit_line : (l : ℕ) → Task
  clear_list : (i : ℕ) → Task

abbrev pub tasks_onto : List ℕ → List Task → List Task
tasks_onto [] rest = rest
tasks_onto (l ∷ ls) rest = visit_line l ∷ tasks_onto ls rest

abbrev pub tasks : Bool → List ℕ → (ℕ → Bool → Addrlist) → List Task
tasks prev [] list = []
tasks prev (i ∷ is) list = tasks_onto (lines (list i prev) []) (clear_list i ∷ tasks prev is list)

-- Where the checkpointing thread is: between two rounds, in the wait of a round, in
-- `log_persistence_unit`, or in `nvm_heap_update_unit`, with logs to replay or to clear.
pub data Phase : Type 0 where
  resting : Phase
  waiting : Phase
  logging : List Task → Phase
  replaying : List ℕ → Phase
  clearing : List ℕ → Phase

pub record Run (S : Type 0) : Type 0 where
  pub sys : System
  pub world : World S
  pub activity : ℕ → Activity
  pub phase : Phase

module _ (L : RedoLogs) (offset n : ℕ) where
  open L use {State}

  -- The protocol's state and the copy of its words in the world.
  abbrev pub with_sys : Run State → System → Phase → Run State
  with_sys s t p = record s {
    sys = t;
    world = record s.world { global_epoch = t.global_epoch; thread_epoch = t.thread_epoch };
    phase = p;
  }

  -- What programs have to see to: an operation of the epoch that ends does not use a line that one of
  -- the next epoch has marked.
  abbrev pub Ordered : Run State → ℕ → ℕ → Type 0
  Ordered s e l =
      epoch e + 1 ≡ epoch s.sys.global_epoch → is_set (s.world.bitmap (not (curr_of e))) l ≡ false

  -- The end of `mark`.
  abbrev pub listed : ℕ → Bool → Region → Bool → World State → World State
  listed i curr entry is_append_list w =
      if is_append_list
      then record w {
        addrlist =
            update w.addrlist i
              (put curr (Addrlist.append entry (w.addrlist i curr)) (w.addrlist i));
      }
      else w

  pub data Step (s : Run State) : Run State → Type 0 where
    -- A step of `begin_op` or `end_op`, or of the loop of the wait.
    protocol :
        {t : System}
        → EpochProtocol.Step n s.sys t
        → t.global_epoch ≡ s.sys.global_epoch
        → ((i : ℕ) → (t.pc i ≡ s.sys.pc i) ⊎ (s.activity i ≡ free))
        → Step s (with_sys s t s.phase)
    begin_mark :
        (i e first num_bits : ℕ)
        → i < n
        → s.sys.pc i ≡ inside e
        → s.activity i ≡ free
        → first + num_bits ≤ num_lines
        → Step s (record s { activity = update s.activity i (marking first num_bits 0 false) })
    mark_next :
        {w : World State} (i e first num_bits done : ℕ) (flag has_set : Bool)
        → i < n
        → s.sys.pc i ≡ inside e
        → s.activity i ≡ marking first num_bits done flag
        → done < num_bits
        → Ordered s e (first + done)
        → mark_line L i (curr_of e) (line_addr (first + done)) (first + done) s.world
          ≡ some (has_set, w)
        → Step s (record s {
          world = w;
          activity = update s.activity i (marking first num_bits (suc done) (flag || has_set));
        })
    end_mark :
        (i e first num_bits : ℕ) (flag : Bool)
        → i < n
        → s.sys.pc i ≡ inside e
        → s.activity i ≡ marking first num_bits num_bits flag
        → Step s (record s {
          world = listed i (curr_of e) (line_addr first, num_bits) flag s.world;
          activity = update s.activity i free;
        })
    write :
        (i e l : ℕ) (val : Cacheline)
        → i < n
        → s.sys.pc i ≡ inside e
        → l < num_lines
        → is_set (s.world.bitmap (curr_of e)) l ≡ true
        → Ordered s e l
        → Step s
            (record s { world = record s.world { dram = update s.world.dram (line_addr l) val } })
    -- `Multi_Epoch_Existence` of the next epoch.
    advance :
        {t : System}
        → s.phase ≡ resting
        → EpochProtocol.Step n s.sys t
        → epoch t.global_epoch ≡ epoch s.sys.global_epoch + 1
        → Step s (with_sys s t waiting)
    -- `Log_Persistence`, after the wait.
    begin_log :
        (e : ℕ)
        → s.phase ≡ waiting
        → ((i : ℕ) → i < n → s.sys.passed i ≡ true)
        → epoch e ≡ epoch s.sys.global_epoch
        → Step s (
            with_sys s
              (record s.sys { global_epoch = e })
              (logging (tasks (not (curr_of e)) (threads n) s.world.addrlist)))
    visit :
        {w : World State} {rest : List Task} (l : ℕ)
        → s.phase ≡ logging (visit_line l ∷ rest)
        → l < num_lines
        → log_line L (not (curr_of s.sys.global_epoch)) (line_addr l) l s.world ≡ some w
        → Step s (record s { world = w; phase = logging rest })
    clear :
        {rest : List Task} (i : ℕ)
        → s.phase ≡ logging (clear_list i ∷ rest)
        → Step s (record s {
          world = record s.world {
            addrlist =
                update s.world.addrlist i
                  (put (not (curr_of s.sys.global_epoch)) [] (s.world.addrlist i));
          };
          phase = logging rest;
        })
    -- `NVM_Heap_Update`, after the loops.
    begin_update :
        (e : ℕ)
        → s.phase ≡ logging []
        → epoch e ≡ epoch s.sys.global_epoch
        → Step s (with_sys s (record s.sys { global_epoch = e }) (replaying (log_ids (threads n))))
    replay_log :
        {rest : List ℕ} (k : ℕ)
        → s.phase ≡ replaying (k ∷ rest)
        → Step s (record s {
          world = record s.world { nvm = L.replay offset k s.world.logs s.world.nvm };
          phase = replaying rest;
        })
    -- `clear_redo_logs`
    begin_clear :
        s.phase ≡ replaying [] → Step s (record s { phase = clearing (log_ids (threads n)) })
    clear_log :
        {rest : List ℕ} (k : ℕ)
        → s.phase ≡ clearing (k ∷ rest)
        → Step s (record s {
          world = record s.world { logs = L.clear k s.world.logs };
          phase = clearing rest;
        })
    end_round : s.phase ≡ clearing [] → Step s (record s { phase = resting })

  -- After `escort_init`: no thread runs, nothing is marked or logged, and both heaps agree. The epoch
  -- is 2, or after a recovery a later one.
  pub record IsInitial (s : Run State) : Type 0 where
    pub protocol_starts : s.sys ≡ record EpochProtocol.init { global_epoch = s.sys.global_epoch }
    pub epoch_started : 2 ≤ epoch s.sys.global_epoch
    pub logs_valid : L.Valid s.world.logs
    pub logs_empty : (k : ℕ) → L.contents k s.world.logs ≡ []
    pub unmarked : (c : Bool) (l : ℕ) → is_set (s.world.bitmap c) l ≡ false
    pub heaps_agree :
        (l : ℕ)
        → l < num_lines
        → s.world.nvm (Snapshot.nvm_addr offset l) ≡ s.world.dram (line_addr l)
    pub all_free : (i : ℕ) → s.activity i ≡ free
    pub rests : s.phase ≡ resting

  pub data Reach : Run State → Type 0 where
    start : {s : Run State} → IsInitial s → Reach s
    later : {s t : Run State} → Reach s → Step s t → Reach t
