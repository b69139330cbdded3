-- ===== src/Snapshot/Update.antt =====
-- After the last visit the redo logs bring the snapshot to NVM, whatever the user threads did in
-- between; and the state that the checkpoint leaves is one from which the next can start.
use escort.Prelude.{
  ℕ, suc, ◌<◌, ◌≡◌, refl, sym, ◌∙◌, subst, Bool, true, false, not, ◌||◌, List, [], ◌∷◌, map,
  if◌then◌else◌, count, All, ==_iff, Bool-cases, inl, inr, arith,
}
use escort.Address.{num_lines, line_addr}
use escort.Bitmap.{is_set}
use escort.Plog.{Cacheline, Memory}
use escort.World.{World}
use escort.RedoLog.{RedoLogs}
use escort.Checkpoint.{replay_threads, clear_redo_logs, nvm_heap_update_unit}
use escort.Snapshot.{nvm_addr, IsOf, holds, log_ids, Kept, stored, pending, logged, Inv, Reach}
use escort.Snapshot.Entries.{apply-at}
use escort.Snapshot.Steps.{Reach-Inv}

module _ (L : RedoLogs) (offset : ℕ) where
  open L use {State, Valid, contents, replay, replay-eq-apply}

  abbrev any_holds : ℕ → List ℕ → State → Bool
  any_holds l [] s = false
  any_holds l (k ∷ ks) s = holds l (contents k s) || any_holds l ks s

  any_holds_of :
      (l k : ℕ) (ks : List ℕ) (s : State)
      → 0 < count k ks
      → holds l (contents k s) ≡ true
      → any_holds l ks s ≡ true
  any_holds_of l k [] s m h = absurd (omega arith)
  any_holds_of l k (j ∷ ks) s m h = ground (arith, ==_iff j k, any_holds_of l k ks s)

  module _ (snapshot : ℕ → Cacheline) (l : ℕ) (bound : l < num_lines) where
    replay-at :
        (k : ℕ) (s : State) (nvm : Memory)
        → All (IsOf snapshot) (contents k s)
        → replay offset k s nvm (nvm_addr offset l)
          ≡ (if holds l (contents k s) then snapshot l else nvm (nvm_addr offset l))
    replay-at k s nvm good =
        rw (replay-eq-apply offset k s nvm)
          (apply-at snapshot offset l (contents k s) nvm bound good)

    threads-at :
        (ids : List ℕ) (w : World State)
        → ((k : ℕ) → 0 < count k (map suc ids) → All (IsOf snapshot) (contents k w.logs))
        → (replay_threads L offset ids w).nvm (nvm_addr offset l)
          ≡ (if any_holds l (map suc ids) w.logs then snapshot l else w.nvm (nvm_addr offset l))
    unfolding replay_threads
    threads-at [] w good = refl
    threads-at (i ∷ rest) w good = ground (
      arith,
      replay-at (suc i) w.logs w.nvm (good (suc i) (ground arith)),
      threads-at rest (record w { nvm = replay offset (suc i) w.logs w.nvm })
          (λ k m. good k (ground arith)),
    )

    -- NVM after the replay of all logs and the clearing of them.
    heap-at :
        (ids : List ℕ) (w : World State)
        → ((k : ℕ) → 0 < count k (log_ids ids) → All (IsOf snapshot) (contents k w.logs))
        → (nvm_heap_update_unit L offset ids w).nvm (nvm_addr offset l)
          ≡ (if any_holds l (log_ids ids) w.logs then snapshot l else w.nvm (nvm_addr offset l))
    unfolding nvm_heap_update_unit clear_redo_logs
    heap-at ids w good = ground (
      arith,
      replay-at 0 w.logs w.nvm (good 0 (ground arith)),
      threads-at ids (record w { nvm = replay offset 0 w.logs w.nvm })
          (λ k m. good k (ground arith)),
    )

    module _ (ctxs : List ℕ) (prev : Bool) where
      kept_stored :
          (w : World State)
          → Inv L offset ctxs prev snapshot w []
          → Kept L offset ctxs prev snapshot w l
          → (if any_holds l (log_ids ctxs) w.logs then snapshot l else w.nvm (nvm_addr offset l))
            ≡ snapshot l
      kept_stored w v (stored s) = ground arith
      kept_stored w v (pending p) = absurd (omega (arith, v.planned l p))
      kept_stored w v (logged k m h) = rw (any_holds_of l k (log_ids ctxs) w.logs m h)

      pub update_stores :
          (w : World State)
          → Inv L offset ctxs prev snapshot w []
          → (nvm_heap_update_unit L offset ctxs w).nvm (nvm_addr offset l) ≡ snapshot l
      update_stores w v = heap-at ctxs w v.entries ∙ kept_stored w v (v.kept l bound)

  module _ (ctxs : List ℕ) (prev : Bool) where
    -- From a state with the invariant, let the loops of `log_persistence_unit` finish, with any number
    -- of marks and writes by threads in the new epoch in between. Then `nvm_heap_update_unit` leaves
    -- in NVM, line by line, the heap as it was at the end of the previous epoch.
    pub checkpoint_stores_snapshot :
        (snapshot : ℕ → Cacheline) (w w' : World State) (todo : List ℕ)
        → Inv L offset ctxs prev snapshot w todo
        → Reach L offset ctxs prev w todo w' []
        → (l : ℕ) → l < num_lines
        → (nvm_heap_update_unit L offset ctxs w').nvm (nvm_addr offset l) ≡ snapshot l
    checkpoint_stores_snapshot snapshot w w' todo v r l bound =
        update_stores snapshot l bound ctxs prev w' (Reach-Inv L offset ctxs prev r v)

    -- How an epoch ends: no line is marked in the next one, no redo log has an entry, a line that was
    -- not marked is in NVM as it is in DRAM, and the marked ones are those to visit.
    pub record Boundary (w : World State) (todo : List ℕ) : Type 0 where
      pub valid : Valid w.logs
      pub idle : (l : ℕ) → is_set (w.bitmap (not prev)) l ≡ false
      pub empty : (k : ℕ) → 0 < count k (log_ids ctxs) → contents k w.logs ≡ []
      pub clean :
          (l : ℕ)
          → l < num_lines
          → is_set (w.bitmap prev) l ≡ false
          → w.nvm (nvm_addr offset l) ≡ w.dram (line_addr l)
      pub planned : (l : ℕ) → is_set (w.bitmap prev) l ≡ true → 0 < count l todo

    pub Boundary-Inv :
        (w : World State) (todo : List ℕ)
        → Boundary w todo
        → Inv L offset ctxs prev (λ l. w.dram (line_addr l)) w todo
    Boundary-Inv w todo b = record {
      valid = b.valid;
      unwritten = λ l h c. refl;
      apart = λ l p. b.idle l;
      planned = b.planned;
      entries = λ k m. subst (All _) (sym (b.empty k m)) tt;
      kept = λ l h. elim (Bool-cases (is_set (w.bitmap prev) l)) [
        | inl marked ↦ pending marked
        | inr clear ↦ stored (b.clean l h clear)
      ];
    }
