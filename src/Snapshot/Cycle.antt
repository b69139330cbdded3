-- ===== src/Snapshot/Cycle.antt =====
-- One checkpoint after another: what a checkpoint leaves is the boundary from which the next starts.
use escort.Prelude.{
  ℕ, suc, ◌<◌, ◌≡◌, refl, sym, ap, ◌∙◌, subst, ◌⊎◌, inl, inr, Bool, true, false, not, List, [], ◌∷◌,
  map, ◌==◌, count, Bool-cases, arith,
}
use escort.Address.{line_addr}
use escort.Bitmap.{is_set}
use escort.Plog.{Cacheline}
use escort.World.{World}
use escort.RedoLog.{RedoLogs}
use escort.Checkpoint.{replay_threads, clear_threads, clear_redo_logs, nvm_heap_update_unit}
use escort.Snapshot.{log_ids, Inv}
use escort.Snapshot.Update.{update_stores, Boundary}

not-not : (b : Bool) → b ≡ not (not b)
not-not true = refl
not-not false = refl

module _ (L : RedoLogs) where
  open L use {State, Valid, contents, replay, clear-Valid, contents-clear}
  open L use {clear as clear_log}

  clear_threads-Valid : (ids : List ℕ) (s : State) → Valid s → Valid (clear_threads L ids s)
  unfolding clear_threads
  clear_threads-Valid [] s v = v
  clear_threads-Valid (i ∷ rest) s v =
      clear_threads-Valid rest (clear_log (suc i) s) (clear-Valid (suc i) s v)

  -- A log that is empty stays empty, and each log on the list becomes so.
  clear_threads-empty :
      (ids : List ℕ) (s : State) (k : ℕ)
      → Valid s
      → (contents k s ≡ []) ⊎ (0 < count k (map suc ids))
      → contents k (clear_threads L ids s) ≡ []
  unfolding clear_threads
  clear_threads-empty [] s k v (inl e) = e
  clear_threads-empty [] s k v (inr m) = absurd (omega arith)
  clear_threads-empty (i ∷ rest) s k v c =
      clear_threads-empty rest (clear_log (suc i) s) k (clear-Valid (suc i) s v)
        (ground (arith, contents-clear (suc i) s v k, c))

  module _ (offset : ℕ) where
    -- The replay touches NVM alone.
    replay_threads-frame :
        (ids : List ℕ) (w : World State)
        → replay_threads L offset ids w ≡ record w { nvm = (replay_threads L offset ids w).nvm }
    unfolding replay_threads
    replay_threads-frame [] w = refl
    replay_threads-frame (i ∷ rest) w = replay_threads-frame rest _

    module _ (ctxs : List ℕ) (prev : Bool) (snapshot : ℕ → Cacheline) (w : World State)
        (v : Inv L offset ctxs prev snapshot w []) where
      abbrev pub updated : World State
      updated = nvm_heap_update_unit L offset ctxs w

      pub updated-frame :
          updated ≡ record w { nvm = updated.nvm; logs = clear_threads L ctxs (clear_log 0 w.logs) }
      unfolding nvm_heap_update_unit clear_redo_logs
      updated-frame =
          ap (clear_redo_logs L ctxs)
            (replay_threads-frame ctxs (record w { nvm = replay offset 0 w.logs w.nvm }))

      pub same_bit : (c : Bool) (l : ℕ) → is_set (updated.bitmap c) l ≡ is_set (w.bitmap c) l
      same_bit c l = ap (λ u. is_set (u.bitmap c) l) updated-frame

      pub prev_clear : (l : ℕ) → is_set (w.bitmap prev) l ≡ false
      prev_clear l = elim (Bool-cases (is_set (w.bitmap prev) l)) [
        | inl marked ↦ absurd (omega (arith, v.planned l marked))
        | inr clear ↦ clear
      ]

      logs_empty :
          (k : ℕ)
          → 0 < count k (log_ids ctxs)
          → contents k (clear_threads L ctxs (clear_log 0 w.logs)) ≡ []
      logs_empty k m =
          clear_threads-empty ctxs (clear_log 0 w.logs) k (clear-Valid 0 w.logs v.valid)
            (elim (Bool-cases (0 == k)) [
              | inl same ↦ inl (rw (contents-clear 0 w.logs v.valid k, same))
              | inr other ↦ inr (ground arith)
            ])

      -- After `nvm_heap_update_unit` the logs are empty, no line of the old epoch is marked, and NVM
      -- agrees with DRAM on every line that the new epoch has not marked: with the roles of the two
      -- bitmaps exchanged, the state is again one at which an epoch ends.
      pub checkpoint-Boundary :
          (todo : List ℕ)
          → ((l : ℕ) → is_set (w.bitmap (not prev)) l ≡ true → 0 < count l todo)
          → Boundary L offset ctxs (not prev) updated todo
      checkpoint-Boundary todo marked = record {
        valid =
            subst Valid (sym (ap (λ u. u.logs) updated-frame))
              (clear_threads-Valid ctxs (clear_log 0 w.logs) (clear-Valid 0 w.logs v.valid));
        idle = λ l.
            subst (λ c. is_set (updated.bitmap c) l ≡ false) (not-not prev)
              (same_bit prev l ∙ prev_clear l);
        empty = λ k m. ap (λ u. contents k u.logs) updated-frame ∙ logs_empty k m;
        clean = λ l h c.
            update_stores L offset snapshot l h ctxs prev w v
            ∙ sym (
                ap (λ u. u.dram (line_addr l)) updated-frame
                ∙ v.unwritten l h (sym (same_bit (not prev) l) ∙ c));
        planned = λ l p. marked l (sym (same_bit (not prev) l) ∙ p);
      }
