-- ===== src/Master/Round.antt =====
-- A round of the checkpointing thread where no user thread takes a step meanwhile.
use Prim.Native.Nat.{bit_and}
use escort.Prelude.{
  ℕ, suc, ◌+◌, ◌-◌, ◌==◌, ◌%◌, ◌^◌, ◌≤◌, ◌<◌, ◌≡◌, refl, sym, ap, ◌∙◌, subst, Bool, true, not, some,
  List, [], ◌∷◌, length, arith,
}
use escort.Address.{num_lines, line_addr}
use escort.Epoch.{multi_epoch_existence, log_persistence, nvm_heap_update, epoch, get_phase}
use escort.Epoch.Phase.{next, epoch-next, set_phase_fields, epoch-lt}
use escort.World.{World, prev_of}
use escort.RedoLog.{RedoLogs}
use escort.Checkpoint.{nvm_heap_update_unit, replay_threads, clear_redo_logs}
use escort.Snapshot.{nvm_addr}
use escort.Snapshot.Update.{Boundary}
use escort.Snapshot.Visits.{checkpoint_total, visits, Registered}
use escort.Master.{wait_ends, store_epoch, persist, round, finalize}

zero_epoch : epoch 0 ≡ 0
unfolding epoch
zero_epoch = refl

prev_of-epoch : (a b : ℕ) → epoch a ≡ epoch b → prev_of a ≡ prev_of b
unfolding prev_of
prev_of-epoch a b h = ap (λ c. not (bit_and ((c + 2 ^ 64 - 1) % 2 ^ 64) 0x1 == 0)) h

wait_ends_idle :
    (e : ℕ) (is : List ℕ) (thread_epoch : ℕ → ℕ)
    → 2 ≤ epoch e
    → ((i : ℕ) → thread_epoch i ≡ 0)
    → wait_ends e is thread_epoch ≡ true
wait_ends_idle e [] thread_epoch started idle = refl
wait_ends_idle e (i ∷ is) thread_epoch started idle =
    ground (arith, idle i, zero_epoch, epoch-lt e, wait_ends_idle e is thread_epoch started idle)

module _ (L : RedoLogs) (offset : ℕ) (ctxs : List ℕ) (prev : Bool) where
  open L use {State}

  replay_threads-store_epoch :
      (is : List ℕ) (e : ℕ) (w : World State)
      → replay_threads L offset is (store_epoch L offset ctxs e w)
        ≡ store_epoch L offset ctxs e (replay_threads L offset is w)
  unfolding replay_threads
  replay_threads-store_epoch [] e w = refl
  replay_threads-store_epoch (i ∷ is) e w =
      replay_threads-store_epoch is e (record w { nvm = L.replay offset (suc i) w.logs w.nvm })

  update-store_epoch :
      (e : ℕ) (w : World State)
      → nvm_heap_update_unit L offset ctxs (store_epoch L offset ctxs e w)
        ≡ store_epoch L offset ctxs e (nvm_heap_update_unit L offset ctxs w)
  unfolding nvm_heap_update_unit clear_redo_logs
  update-store_epoch e w =
      ap (clear_redo_logs L ctxs)
        (replay_threads-store_epoch ctxs e (record w { nvm = L.replay offset 0 w.logs w.nvm }))

  abbrev pub Ready : Bool → World State → Type 0
  Ready q w =
      Boundary L offset ctxs q w (visits q ctxs w.addrlist)
      × Registered q ctxs w.addrlist
      × (length (visits q ctxs w.addrlist) ≤ L.room 0 w.logs)

  at_epoch :
      (e : ℕ) (q : Bool) (w : World State) → Ready q w → Ready q (store_epoch L offset ctxs e w)
  at_epoch e q w (b, r, space) = (
    record {
      valid = b.valid;
      idle = b.idle;
      empty = b.empty;
      clean = b.clean;
      planned = b.planned;
    },
    r,
    space,
  )

  -- The heap in NVM is, line by line, that in DRAM before, and the word has the counter and phase that
  -- it ends with.
  pub record Persisted (counter : ℕ) (w : World State) (e' : ℕ) (w' : World State) : Type 0 where
    pub counted : epoch e' ≡ counter
    pub phase : get_phase e' ≡ some nvm_heap_update
    pub stored_epoch : w'.global_epoch ≡ e'
    pub lines : (l : ℕ) → l < num_lines → w'.nvm (nvm_addr offset l) ≡ w.dram (line_addr l)

  persist_total :
      (e : ℕ) (w : World State)
      → prev_of e ≡ prev
      → Ready prev w
      → (e' : ℕ) × (w' : World State) × (persist L offset ctxs e w ≡ some (e', w'))
        × Persisted (epoch e) w e' w'
  unfolding persist
  persist_total e w parity ready =
      let (e₃, set₃, q₃, g₃, l₃) = set_phase_fields e nvm_heap_update (λ p. cc) in
      let (w₁, logged, stored) = checkpoint_total L offset ctxs (store_epoch L offset ctxs e w) (
        subst (λ q. Ready q (store_epoch L offset ctxs e w)) (sym parity)
          (at_epoch e prev w ready)) in
      (
        e₃,
        nvm_heap_update_unit L offset ctxs (store_epoch L offset ctxs e₃ w₁),
        rw logged (rw set₃ refl),
        record {
          counted = q₃;
          phase = g₃;
          stored_epoch = ap (λ u. u.global_epoch) (update-store_epoch e₃ w₁);
          lines =
              λ l h. ap (λ u. u.nvm (nvm_addr offset l)) (update-store_epoch e₃ w₁) ∙ stored l h;
        },
      )

  -- At the end of an epoch with room in the log of the checkpointing thread for the marked lines, with
  -- a counter from 1 to below its bound, and with no thread within an operation, a round of the loop
  -- runs to its end. It raises the counter by one, leaves the phase `NVM_Heap_Update`, and the heap in
  -- NVM is then, line by line, that in DRAM before the round.
  pub round_persists :
      (e : ℕ) (w : World State)
      → e < 2 ^ 64
      → 1 ≤ epoch e
      → epoch e + 1 < 2 ^ 62
      → ((i : ℕ) → w.thread_epoch i ≡ 0)
      → prev_of (next e) ≡ prev
      → Boundary L offset ctxs prev w (visits prev ctxs w.addrlist)
      → Registered prev ctxs w.addrlist
      → length (visits prev ctxs w.addrlist) ≤ L.room 0 w.logs
      → (e' : ℕ) × (w' : World State) × (round L offset ctxs e w ≡ some (e', w'))
        × (epoch e' ≡ epoch e + 1)
        × (get_phase e' ≡ some nvm_heap_update)
        × (w'.global_epoch ≡ e')
        × ((l : ℕ) → l < num_lines → w'.nvm (nvm_addr offset l) ≡ w.dram (line_addr l))
  unfolding round
  round_persists e w fits started room idle parity b r space =
      let (e₁, set₁, q₁, g₁, l₁) = set_phase_fields (next e) multi_epoch_existence (λ p. cc) in
      let (e₂, set₂, q₂, g₂, l₂) = set_phase_fields e₁ log_persistence (λ p. cc) in
      let counted : epoch (next e) ≡ epoch e + 1 = epoch-next e fits room in
      let waited : wait_ends e₁ ctxs w.thread_epoch ≡ true =
        wait_ends_idle e₁ ctxs w.thread_epoch (omega arith) idle in
      let (e', w', done, p) =
        persist_total e₂ (store_epoch L offset ctxs e₁ w)
          (prev_of-epoch e₂ (next e) (q₂ ∙ q₁) ∙ parity) (at_epoch e₁ prev w (b, r, space)) in
      (
        e',
        w',
        ground (arith, set₁, set₂, waited, done),
        p.counted ∙ q₂ ∙ q₁ ∙ counted,
        p.phase,
        p.stored_epoch,
        p.lines,
      )

  -- The same for `finalize`, which waits for no thread.
  pub finalize_total :
      (e : ℕ) (w : World State)
      → e < 2 ^ 64
      → epoch e + 1 < 2 ^ 62
      → prev_of (next e) ≡ prev
      → Ready prev w
      → (e' : ℕ) × (w' : World State) × (finalize L offset ctxs e w ≡ some (e', w'))
        × Persisted (epoch e + 1) w e' w'
  unfolding finalize
  finalize_total e w fits room parity ready =
      let (e₁, set₁, q₁, g₁, l₁) = set_phase_fields (next e) log_persistence (λ p. cc) in
      let (e', w', done, p) = persist_total e₁ w (prev_of-epoch e₁ (next e) q₁ ∙ parity) ready in
      (
        e',
        w',
        rw set₁ done,
        record {
          counted = p.counted ∙ q₁ ∙ epoch-next e fits room;
          phase = p.phase;
          stored_epoch = p.stored_epoch;
          lines = p.lines;
        },
      )
