-- ===== src/Interface/Calls.antt =====
-- The calls of src/Escort.cpp on the heap by programs that keep to the rules.
use escort.Prelude.{
  ℕ, ◌+◌, ◌≤◌, ◌<◌, ◌≡◌, ◌≢◌, refl, sym, ap, ◌∙◌, subst, Bool, true, false, not, some, List, [],
  ◌∷◌, update, count, length, ==_iff, arith,
}
use escort.Address.{dram_base, num_lines}
use escort.Bitmap.{is_set}
use escort.World.{World, curr_of}
use escort.RedoLog.{RedoLogs}
use escort.Userthread
use escort.Userthread.{num_bits_of, mark}
use escort.Userthread.Mark.{byte_line, mark_covers}
use escort.Interface.{
  Ctx, assign, Call, begin_op_call, end_op_call, write_region_call, pwrite_call, call, run,
  begin_op, escort_begin_op, escort_end_op, escort_write_region, pwrite,
}
use escort.Interface.Marks.{MarkedAlone, mark-MarkedAlone}
use escort.Interface.Rules.{Allowed, inside_after, cost, stores, Proper, total_cost, all_stores}
use escort.Interface.Working.{
  Working, Worked, moved-Working, inside_epoch, marked-Worked, stored-Worked,
}

module _ (L : RedoLogs) (offset : ℕ) (ctxs : List ℕ) (c : Bool) where
  open L use {State}

  region_total :
      (inside : ℕ → Bool) (i addr size : ℕ) (w : World State)
      → 0 < count i ctxs
      → Working L offset ctxs c inside w
      → inside i ≡ true
      → dram_base ≤ addr
      → byte_line addr + num_bits_of size ≤ num_lines
      → (w' : World State) × (mark L i addr size w ≡ some w')
        × (w'.dram ≡ w.dram)
        × Worked L offset ctxs c inside (num_bits_of size) w w'
        × (curr_of (w.thread_epoch i) ≡ c)
  region_total inside i addr size w member v in_op low fits =
      let own : curr_of (w.thread_epoch i) ≡ c =
        ap curr_of (inside_epoch L offset ctxs c inside w v i in_op) ∙ v.parity in
      let here : w.thread_epoch i ≢ 0 =
        λ z. v.started (sym (inside_epoch L offset ctxs c inside w v i in_op) ∙ z) in
      let (w', e, m) =
        mark-MarkedAlone L i addr size w here low
          (λ x. ap (λ b. is_set (w.bitmap (not b)) x) own ∙ v.boundary.idle x) in
      (
        w',
        e,
        m.same_dram,
        marked-Worked L offset ctxs c inside w v i (byte_line addr) (num_bits_of size) w' member
            fits (subst (λ b. MarkedAlone L i b (byte_line addr) (num_bits_of size) w w') own m),
        own,
      )

  call_total :
      (inside : ℕ → Bool) (i : ℕ) (k : Call) (w : World State)
      → 0 < count i ctxs
      → Working L offset ctxs c inside w
      → Allowed inside i k
      → (w' : World State) × (call L (some i) k w ≡ some w')
        × (w'.dram ≡ stores k w.dram)
        × Worked L offset ctxs c (inside_after i k inside) (cost k) w w'
  unfolding escort_begin_op begin_op escort_end_op Userthread.end_op escort_write_region pwrite
  call_total inside i begin_op_call w member v ok = (
    record w { thread_epoch = update w.thread_epoch i w.global_epoch },
    ground (arith, v.started, ==_iff w.global_epoch 0),
    refl,
    moved-Working L offset ctxs c inside w v i true w.global_epoch refl,
  )
  call_total inside i end_op_call w member v ok = (
    record w { thread_epoch = update w.thread_epoch i 0 },
    ground (
      arith,
      v.started,
      inside_epoch L offset ctxs c inside w v i ok,
      ==_iff (w.thread_epoch i) 0,
    ),
    refl,
    moved-Working L offset ctxs c inside w v i false 0 refl,
  )
  call_total inside i (write_region_call addr size) w member v (in_op, low, fits) =
      let (w', e, same, r, own) = region_total inside i addr size w member v in_op low fits in
      (w', e, same, r)
  call_total inside i (pwrite_call addr val) w member v (in_op, low, fits, small, whole) =
      let (w', e, same, r, own) =
        region_total inside i addr (length val) w member v in_op low fits in
      (
        record w' { dram = assign addr val w'.dram },
        rw e refl,
        ap (assign addr val) same,
        stored-Worked L offset ctxs c inside (num_bits_of (length val)) addr val w w' low
            (λ a from to.
              ap (λ b. is_set (w'.bitmap b) (byte_line a)) (sym own)
              ∙ mark_covers L i addr (length val) w w' a e low small whole from to)
            r,
      )

  -- In a state at which the epoch can end, a program of calls that keep to the rules runs to its end. DRAM
  -- is then as its stores make it, NVM, the redo logs and the epoch are as they were, the epoch can again
  -- end, and there are at most as many lines more to visit as its calls mark.
  pub run_total :
      (prog : List (Ctx × Call)) (inside : ℕ → Bool) (w : World State)
      → Working L offset ctxs c inside w
      → Proper ctxs inside prog
      → (w' : World State) × (inside' : ℕ → Bool) × (run L prog w ≡ some w')
        × (w'.dram ≡ all_stores prog w.dram)
        × Worked L offset ctxs c inside' (total_cost prog) w w'
  run_total [] inside w v p = (
    w,
    inside,
    refl,
    refl,
    record {
      working = v;
      same_nvm = refl;
      same_logs = refl;
      same_epoch = refl;
      visited = omega arith;
    },
  )
  run_total ((ctx, k) ∷ rest) inside w v (i, at, member, ok, p) =
      let (w₁, e₁, d₁, r₁) = call_total inside i k w member v ok in
      let (w₂, inside', e₂, d₂, r₂) = run_total rest (inside_after i k inside) w₁ r₁.working p in
      (
        w₂,
        inside',
        rw at (rw e₁ e₂),
        d₂ ∙ ap (all_stores rest) d₁,
        record {
          working = r₂.working;
          same_nvm = r₂.same_nvm ∙ r₁.same_nvm;
          same_logs = r₂.same_logs ∙ r₁.same_logs;
          same_epoch = r₂.same_epoch ∙ r₁.same_epoch;
          visited = omega (arith, r₁.visited, r₂.visited);
        },
      )
