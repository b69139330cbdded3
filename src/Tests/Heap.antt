-- ===== src/Tests/Heap.antt =====
-- One thread, three log blocks, and line 5 of the heap written in the epoch that ends.
use escort.Prelude.{
  ℕ, ◌+◌, ◌-◌, ◌^◌, ◌<◌, ◌≡◌, refl, ◌⊎◌, true, false, Option, none, some, [], ◌∷◌, ◌==◌,
  if◌then◌else◌, update, arith,
}
use escort.Address.{num_lines, line_addr}
use escort.Bitmap
use escort.Bitmap.{Bitmap, is_set}
use escort.Chain.{Block, push_back, clear, contents, room, append_tail, fetch}
use escort.Chain.Push.{Pushed, push_back_cases}
use escort.Chain.Clear.{Cleared, clear-Cleared}
use escort.Plog.{Plogs, Entry, management, log_block_num, push_back_and_clwb, replay_redo_log}
use escort.Plog.Replay.{replay_redo_log-eq-apply}
use escort.Plog.Management.{management-Valid}
use escort.RedoLog.Plogs.{plogs}
use escort.World.{World, prev_of, curr_of}
use escort.Userthread.{mark, mark_line}
use escort.Userthread.Total.{mark_total}
use escort.Userthread.Mark.{MarkedRegion, mark_covers, mark_misses_last_line, byte_line}
use escort.Checkpoint.{nvm_heap_update_unit, log_line}
use escort.Epoch.{epoch, get_phase, nvm_heap_update}
use escort.Master.{round}
use escort.Master.Round.{round_persists}
use escort.LineRace.{testing_curr, testing, writing}
use escort.LineRace.Rounds.{Steps, line_in, mark_line-Steps}
use escort.Snapshot.{nvm_addr, Inv, Step, Reach, start, later, visit}
use escort.Snapshot
use escort.Snapshot.Steps.{Step-Inv, Reach-Inv}
use escort.Snapshot.Update.{checkpoint_stores_snapshot, Boundary, Boundary-Inv}
use escort.Snapshot.Cycle.{checkpoint-Boundary}

abbrev no_entry : Entry
no_entry = record { addr = 0; val = 0 }

abbrev pub area : ℕ → Block (Unit {0}) Entry
area b = record { header = tt; size = 0; entries = λ _. no_entry }

abbrev pub no_bits : Bitmap
no_bits = Bitmap.new num_lines

abbrev line_5 : Bitmap
line_5 = record { bitmap = update (λ _. false) 5 true; size = num_lines }

abbrev pub offset : ℕ
offset = 2 ^ 40

-- At the start of `Log_Persistence` of epoch 3: the bitmap of even epochs is that of epoch 2.
abbrev ended : World Plogs
ended = record {
  global_epoch = 2 ^ 62 + 3;
  dram = update (λ _. 1) (line_addr 5) 9;
  nvm = λ _. 1;
  bitmap = λ odd. if odd then no_bits else line_5;
  thread_epoch = λ i. if i == 0 then 2 ^ 62 + 3 else 0;
  addrlist = λ i odd. if i == 0 then (if odd then [] else (line_addr 5, 1) ∷ []) else [];
  logs = management 3 area;
}

prev_of-ended : prev_of ended.global_epoch ≡ false
unfolding prev_of
prev_of-ended = refl

ended-Boundary : Boundary plogs offset (0 ∷ []) false ended (5 ∷ [])
unfolding management
ended-Boundary = record {
  valid = management-Valid 3 area;
  idle = λ l. refl;
  empty = λ k m. refl;
  clean = λ l h c. ground arith;
  planned = λ l p. ground arith;
}

-- The same with no thread within an operation, and the checkpointing thread still at epoch 2.
abbrev quiet : World Plogs
quiet = record ended { global_epoch = 2; thread_epoch = λ i. 0 }

quiet-Boundary : Boundary plogs offset (0 ∷ []) false quiet (5 ∷ [])
quiet-Boundary = record {
  valid = ended-Boundary.valid;
  idle = ended-Boundary.idle;
  empty = ended-Boundary.empty;
  clean = ended-Boundary.clean;
  planned = ended-Boundary.planned;
}

round_persists_example :
    (e' : ℕ) × (w' : World Plogs) × (round plogs offset (0 ∷ []) 2 quiet ≡ some (e', w'))
    × (epoch e' ≡ epoch 2 + 1)
    × (get_phase e' ≡ some nvm_heap_update)
    × (w'.global_epoch ≡ e')
    × ((l : ℕ) → l < num_lines → w'.nvm (nvm_addr offset l) ≡ quiet.dram (line_addr l))
unfolding prev_of epoch management
round_persists_example =
    round_persists plogs offset (0 ∷ []) false 2 quiet (omega arith) (omega arith) (omega arith)
      (λ i. refl) refl quiet-Boundary (refl, (refl, omega arith, tt), tt) (omega arith)

-- The world after a call that returned.
abbrev pub world_of {ℓ} : {A : Type ℓ} → Option (A × World Plogs) → World Plogs
world_of none = ended
world_of (some (a, w)) = w

-- Thread 0 marks line 5 in epoch 3 before the checkpointing thread comes to it, and writes 77.
copied : World Plogs
unfolding mark_line push_back_and_clwb push_back fetch append_tail Bitmap.set management
copied = world_of (mark_line plogs 0 true (line_addr 5) 5 ended)

written : World Plogs
written = record copied { dram = update copied.dram (line_addr 5) 77 }

copied_log : contents 1 copied.logs ≡ record { addr = line_addr 5; val = 9 } ∷ []
unfolding copied
copied_log = refl

interleaved : Reach plogs offset (0 ∷ []) false ended (5 ∷ []) written []
unfolding written copied log_line
interleaved =
    later
      (later (later start (Snapshot.mark {w' = copied} 0 5 true (omega arith) (omega arith) refl))
        (Snapshot.write 5 77 (omega arith) refl))
      (visit (omega arith) refl)

checkpoint_stores_snapshot_example :
    (nvm_heap_update_unit plogs offset (0 ∷ []) written).nvm (nvm_addr offset 5)
    ≡ ended.dram (line_addr 5)
checkpoint_stores_snapshot_example =
    checkpoint_stores_snapshot plogs offset (0 ∷ []) false (λ l. ended.dram (line_addr l)) ended
      written (5 ∷ []) (Boundary-Inv plogs offset (0 ∷ []) false ended (5 ∷ []) ended-Boundary)
      interleaved 5 (omega arith)

mark_line-Steps_example :
    Steps
      (line_in plogs offset (0 ∷ []) false 0 5 9 false ended testing_curr testing)
      (line_in plogs offset (0 ∷ []) false 0 5 9 false copied writing testing)
unfolding copied
mark_line-Steps_example =
    mark_line-Steps plogs offset (0 ∷ []) false 0 5 9 false ended copied true testing
      (management-Valid 3 area) refl

Step-Inv_example : Inv plogs offset (0 ∷ []) false (λ l. ended.dram (line_addr l)) copied (5 ∷ [])
unfolding copied
Step-Inv_example =
    Step-Inv plogs offset (0 ∷ []) false
      (Snapshot.mark {w' = copied} 0 5 true (omega arith) (omega arith) refl)
      (Boundary-Inv plogs offset (0 ∷ []) false ended (5 ∷ []) ended-Boundary)

checkpoint-Boundary_example :
    Boundary plogs offset
      (0 ∷ [])
      true
      (nvm_heap_update_unit plogs offset (0 ∷ []) written)
      (5 ∷ [])
unfolding written copied
checkpoint-Boundary_example =
    checkpoint-Boundary plogs offset (0 ∷ []) false (λ l. ended.dram (line_addr l)) written
      (Reach-Inv plogs offset (0 ∷ []) false interleaved
        (Boundary-Inv plogs offset (0 ∷ []) false ended (5 ∷ []) ended-Boundary))
      (5 ∷ []) (λ l p. ground arith)

-- Blocks of two entries: the second append fills block 1, and the third takes block 0.
abbrev two_blocks : Plogs
two_blocks = management 2 area

abbrev entry : ℕ → Entry
entry n = record { addr = line_addr n; val = n }

appended : Option Plogs → Entry → Option Plogs
appended none e = none
appended (some st) e = push_back 2 (λ h. h) 7 e st

abbrev store_of : Option Plogs → Plogs
store_of none = two_blocks
store_of (some st) = st

three_appends :
    contents 7
      (store_of (appended (appended (appended (some two_blocks) (entry 1)) (entry 2)) (entry 3)))
    ≡ entry 1 ∷ entry 2 ∷ entry 3 ∷ []
unfolding appended push_back fetch append_tail management
three_appends = refl

push_back_cases_example :
    ((room log_block_num 7 two_blocks ≡ 0)
      × (push_back log_block_num (λ h. h) 7 (entry 1) two_blocks ≡ none))
    ⊎ ((st' : Plogs) × (push_back log_block_num (λ h. h) 7 (entry 1) two_blocks ≡ some st')
        × Pushed log_block_num (λ h. h) 7 (entry 1) two_blocks st')
push_back_cases_example =
    push_back_cases log_block_num (λ h. h) 7 two_blocks (entry 1) (management-Valid 2 area)
      (omega arith)

copied-Inv : Inv plogs offset (0 ∷ []) false (λ l. ended.dram (line_addr l)) copied (5 ∷ [])
unfolding copied
copied-Inv =
    Reach-Inv plogs offset (0 ∷ []) false
      (later start (Snapshot.mark {w' = copied} 0 5 true (omega arith) (omega arith) refl))
      (Boundary-Inv plogs offset (0 ∷ []) false ended (5 ∷ []) ended-Boundary)

clear-Cleared_example : Cleared log_block_num 1 copied.logs (clear 1 copied.logs)
clear-Cleared_example = clear-Cleared log_block_num 1 copied.logs copied-Inv.valid

replay_redo_log-eq-apply_example :
    replay_redo_log offset 1 copied.logs (λ _. 1) ≡ update (λ _. 1) (nvm_addr offset 5) 9
unfolding copied
replay_redo_log-eq-apply_example = replay_redo_log-eq-apply offset 1 copied.logs (λ _. 1)

-- Thread 0 marks 8 bytes from byte 60 of line 7 on.
marked : Option (World Plogs)
unfolding mark mark_line push_back_and_clwb push_back fetch append_tail Bitmap.set management
marked = mark plogs 0 (line_addr 7 + 60) 8 ended

marked_world : World Plogs
unfolding marked
marked_world = elim marked [ none ↦ ended | some w ↦ w ]

mark_total_example :
    (w' : World Plogs) × (mark plogs 0 (line_addr 7 + 60) 8 ended ≡ some w')
    × MarkedRegion plogs 0 (line_addr 7 + 60) 8 ended w'
unfolding management
mark_total_example =
    mark_total plogs 0 (line_addr 7 + 60) 8 ended (omega arith) (omega arith)
      (management-Valid 3 area) (omega arith)

-- and 100 bytes from the start of line 9 on
covered : Option (World Plogs)
unfolding mark mark_line push_back_and_clwb push_back fetch append_tail Bitmap.set management
covered = mark plogs 0 (line_addr 9) 100 ended

covered_world : World Plogs
unfolding covered
covered_world = elim covered [ none ↦ ended | some w ↦ w ]

mark_covers_example :
    is_set (covered_world.bitmap (curr_of (ended.thread_epoch 0))) (byte_line (line_addr 10 + 35))
    ≡ true
unfolding covered_world
mark_covers_example =
    mark_covers plogs 0 (line_addr 9) 100 ended covered_world (line_addr 10 + 35) refl (omega arith)
      (omega arith) (omega arith) (omega arith) (omega arith)

mark_misses_last_line_example :
    is_set
      (marked_world.bitmap (curr_of (ended.thread_epoch 0)))
      (byte_line (line_addr 7 + 60 + 8 - 1))
    ≡ is_set (ended.bitmap (curr_of (ended.thread_epoch 0))) (byte_line (line_addr 7 + 60 + 8 - 1))
unfolding marked_world
mark_misses_last_line_example =
    mark_misses_last_line plogs 0 (line_addr 7 + 60) 8 ended marked_world refl (omega arith)
      (omega arith) (omega arith)
