-- ===== src/Interface/Finalize.antt =====
-- NVM after a program and `finalize` of the checkpointing thread behind it (`escort_finalize` of
-- src/Escort.cpp).
use escort.Prelude.{
  ℕ, ◌+◌, ◌-◌, ◌%◌, ◌^◌, ◌≤◌, ◌<◌, ◌≡◌, sym, ap, ◌∙◌, false, not, some, List, length, ◌==◌, arith,
}
use escort.Address.{num_lines, line_addr}
use escort.Bits.{bit_and_mask}
use escort.Epoch.{nvm_heap_update, epoch, get_phase}
use escort.Epoch.Phase.{next, epoch-next}
use escort.World.{World, curr_of, prev_of}
use escort.RedoLog.{RedoLogs}
use escort.Snapshot.{nvm_addr}
use escort.Snapshot.Visits.{visits}
use escort.Durability.Parity.{curr_of_lem}
use escort.Master.{finalize}
use escort.Master.Round.{finalize_total}
use escort.Interface.{Ctx, Call, run}
use escort.Interface.Rules.{Proper, total_cost, all_stores}
use escort.Interface.Working.{Working}
use escort.Interface.Calls.{run_total}

-- The epoch that ends is that of the marks.
pub prev_of-next : (e : ℕ) → e < 2 ^ 64 → epoch e + 1 < 2 ^ 62 → prev_of (next e) ≡ curr_of e
unfolding prev_of
prev_of-next e fits room =
    ap (λ b. not (b == 0)) (bit_and_mask 1 ((epoch (next e) + 2 ^ 64 - 1) % 2 ^ 64) ∙ before)
    ∙ sym (curr_of_lem e)
  where
    before : (epoch (next e) + 2 ^ 64 - 1) % 2 ^ 64 % 2 ≡ epoch e % 2
    before = omega (arith, epoch-next e fits room)

module _ (L : RedoLogs) (offset : ℕ) (ctxs : List ℕ) where
  open L use {State}

  -- In a state at which the epoch can end and no thread is within an operation, with a counter below its
  -- bound, and with room in the log of the checkpointing thread for the lines to visit and those that
  -- the calls mark: a program of calls that keep to the rules runs to its end, and so does `finalize`
  -- after it. It raises the counter by one and leaves the phase `NVM_Heap_Update`. The heap in NVM is then, line by line, DRAM as the stores of the program make it.
  pub finalize_stores :
      (prog : List (Ctx × Call)) (w : World State)
      → Working L offset ctxs (curr_of w.global_epoch) (λ _. false) w
      → Proper ctxs (λ _. false) prog
      → w.global_epoch < 2 ^ 64
      → epoch w.global_epoch + 1 < 2 ^ 62
      → length (visits (curr_of w.global_epoch) ctxs w.addrlist) + total_cost prog ≤ L.room 0 w.logs
      → (w₁ : World State) × (e : ℕ) × (w₂ : World State) × (run L prog w ≡ some w₁)
        × (finalize L offset ctxs w.global_epoch w₁ ≡ some (e, w₂))
        × (get_phase e ≡ some nvm_heap_update)
        × (epoch e ≡ epoch w.global_epoch + 1)
        × ((l : ℕ)
            → l < num_lines
            → w₂.nvm (nvm_addr offset l) ≡ all_stores prog w.dram (line_addr l))
  finalize_stores prog w v p fits low room =
      let c = curr_of w.global_epoch in
      let (w₁, inside, ran, stored, r) = run_total L offset ctxs c prog (λ _. false) w v p in
      let (e, w₂, done, d) =
        finalize_total L offset ctxs c w.global_epoch w₁ fits low
          (prev_of-next w.global_epoch fits low)
          (
            r.working.boundary,
            r.working.registered,
            omega (arith, room, r.visited, ap (L.room 0) r.same_logs),
          ) in
      (
        w₁,
        e,
        w₂,
        ran,
        done,
        d.phase,
        d.counted,
        λ l h. d.lines l h ∙ ap (λ f. f (line_addr l)) stored,
      )
