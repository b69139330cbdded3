-- ===== src/Tests/Interfacing.antt =====
-- A new file, one thread that stores a byte in an operation, the end of the process, and a restart.
use escort.Prelude.{
  ℕ, ◌+◌, ◌^◌, ◌≤◌, ◌<◌, ◌≡◌, refl, sym, ap, ◌∙◌, subst, true, false, some, List, [], ◌∷◌, ◌==◌,
  if◌then◌else◌, count, arith,
}
use escort.Address.{dram_base, num_lines, line_addr}
use escort.Chain.{room}
use escort.Epoch.{epoch, get_phase, nvm_heap_update}
use escort.Plog.{Plogs, log_block_num}
use escort.World.{World, curr_of}
use escort.RedoLog.Plogs.{plogs}
use escort.Snapshot.{nvm_addr}
use escort.Durability.{IsInitial}
use escort.Master.{finalize}
use escort.Startup.{Process, offset_of, global_epoch, first_execution}
use escort.Startup.Steps.{managed}
use escort.Startup.Init.{run_of, after, escort_init-first}
use escort.Startup.Start.{escort_init_starts}
use escort.Interface.{Ctx, Call, begin_op_call, end_op_call, pwrite_call, run}
use escort.Interface.Rules.{Proper, total_cost, all_stores}
use escort.Interface.Finalize.{finalize_stores}
use escort.Interface.Restart.{start-Working, new_room}
use escort.Tests.Allocation.{in_order}
use escort.Tests.Starting.{start, nvm_size, opened, opened-Opened}

abbrev zeros : ℕ → ℕ
zeros a = 0

abbrev started : Process (ℕ × List ℕ)
started =
    after in_order start nvm_size zeros 1
      (first_execution in_order (managed start nvm_size zeros (opened zeros zeros)))

abbrev Started : Process (ℕ × List ℕ) → Type 0
Started t = (global_epoch t.config ≡ 2) × IsInitial plogs (offset_of t.config) 1 (run_of t)

some_same : {t u : Process (ℕ × List ℕ)} → some t ≡ some u → t ≡ u
some_same h = cc

started-Started : Started started
started-Started =
    let (t, e, two, v) =
      escort_init_starts in_order start nvm_size zeros (λ _. true) 1 1 (opened zeros zeros)
        (opened-Opened zeros zeros) (λ i. refl) (λ l b. refl) in
    subst Started
      (some_same (
        sym e
        ∙ escort_init-first in_order start nvm_size zeros (λ _. true) 1 (opened zeros zeros)
            (opened-Opened zeros zeros)))
      (two, v)

abbrev program : List (Ctx × Call)
program =
    (some 0, begin_op_call) ∷ (some 0, pwrite_call dram_base (7 ∷ [])) ∷ (some 0, end_op_call) ∷ []

abbrev ctxs : List ℕ
ctxs = 0 ∷ []

once : (i : ℕ) → count i ctxs ≤ 1
once i = ground arith

program-Proper : Proper ctxs (λ _. false) program
program-Proper = (
  0,
  refl,
  omega arith,
  refl,
  (
    0,
    refl,
    omega arith,
    (refl, omega arith, omega arith, omega arith, omega arith),
    (0, refl, omega arith, refl, tt),
  ),
)

two_fits : (e : ℕ) → e ≡ 2 → (e < 2 ^ 64) × (epoch e + 1 < 2 ^ 62)
unfolding epoch
two_fits e h = (omega arith, omega (arith, ap epoch h))

fits : global_epoch started.config < 2 ^ 64
fits = (two_fits (global_epoch started.config) started-Started.0).0

below_bound : epoch (global_epoch started.config) + 1 < 2 ^ 62
below_bound = (two_fits (global_epoch started.config) started-Started.0).1

has_room : total_cost program ≤ room log_block_num 0 started.plogs
has_room = omega (arith, new_room 0 (opened zeros zeros).plogs.block)

abbrev Finalized : Type 0
Finalized =
    (w₁ : World Plogs) × (e : ℕ) × (w₂ : World Plogs) × (run plogs program (run_of started).world
      ≡ some w₁)
    × (finalize plogs (offset_of started.config) ctxs (global_epoch started.config) w₁
        ≡ some (e, w₂))
    × (get_phase e ≡ some nvm_heap_update)
    × (epoch e ≡ epoch (global_epoch started.config) + 1)
    × ((l : ℕ)
        → l < num_lines
        → w₂.nvm (nvm_addr (offset_of started.config) l)
          ≡ all_stores program (run_of started).world.dram (line_addr l))

finalized : Finalized
finalized =
    finalize_stores plogs (offset_of started.config) ctxs program (run_of started).world
      (start-Working (offset_of started.config) 1 ctxs started started-Started.1 once
        (curr_of (global_epoch started.config)) refl)
      program-Proper fits below_bound has_room

finalize_stores_example : Finalized
finalize_stores_example =
    finalize_stores plogs (offset_of started.config) ctxs program (run_of started).world
      (start-Working (offset_of started.config) 1 ctxs started started-Started.1 once
        (curr_of (global_epoch started.config)) refl)
      program-Proper fits below_bound has_room

abbrev last_epoch : ℕ
last_epoch = finalized.1

abbrev last : World Plogs
last = finalized.2

abbrev words_after : ℕ → ℕ
words_after a = if a == start + 16 then last_epoch else 0

abbrev reopened : Process (ℕ × List ℕ)
reopened = opened words_after last.nvm
