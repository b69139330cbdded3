-- ===== src/Durability/Frame.antt =====
-- What the invariants of the heap do not read, and what the steps of the protocol leave alone.
use escort.Prelude.{
  ℕ, ◌+◌, ◌<◌, ◌≡◌, refl, sym, ap, ◌∙◌, subst, inl, inr, Bool, true, not, some, List, All,
  Bool-cases, Option-cases, arith,
}
use escort.Address.{num_lines, line_addr}
use escort.Bitmap.{is_set}
use escort.Epoch.{epoch}
use escort.Plog.{Cacheline}
use escort.World.{World}
use escort.RedoLog.{RedoLogs}
use escort.Checkpoint.{log_line}
use escort.Snapshot
use escort.Snapshot.{nvm_addr, log_ids, IsOf, Kept, stored, pending, logged, Inv}
use escort.Snapshot.Update.{Boundary}
use escort.EpochProtocol.{
  System, Step, load, publish, enter, retry, leave, pass, change_phase, advance,
}

module _ (L : RedoLogs) (offset : ℕ) (ctxs : List ℕ) (prev : Bool) where
  open L use {State}

  -- The same heaps, bitmaps and logs.
  pub record SameHeaps (w w' : World State) : Type 0 where
    pub same_dram : w'.dram ≡ w.dram
    pub same_nvm : w'.nvm ≡ w.nvm
    pub same_bits : w'.bitmap ≡ w.bitmap
    pub same_logs : w'.logs ≡ w.logs

  module _ (w w' : World State) (f : SameHeaps w w') where
    bit : (c : Bool) (l : ℕ) → is_set (w'.bitmap c) l ≡ is_set (w.bitmap c) l
    bit c l = ap (λ b. is_set (b c) l) f.same_bits

    frame-Kept :
        (snapshot : ℕ → Cacheline) (l : ℕ)
        → Kept L offset ctxs prev snapshot w l
        → Kept L offset ctxs prev snapshot w' l
    frame-Kept snapshot l (stored s) = stored (ap (λ m. m (nvm_addr offset l)) f.same_nvm ∙ s)
    frame-Kept snapshot l (pending p) = pending (bit prev l ∙ p)
    frame-Kept snapshot l (logged k m h) =
        logged k m (ap (λ s. Snapshot.holds l (L.contents k s)) f.same_logs ∙ h)

    pub frame-Inv :
        (snapshot : ℕ → Cacheline) (todo : List ℕ)
        → Inv L offset ctxs prev snapshot w todo
        → Inv L offset ctxs prev snapshot w' todo
    frame-Inv snapshot todo v = record {
      valid = subst L.Valid (sym f.same_logs) v.valid;
      unwritten = λ l h c.
          ap (λ m. m (line_addr l)) f.same_dram ∙ v.unwritten l h (sym (bit (not prev) l) ∙ c);
      apart = λ l p. bit (not prev) l ∙ v.apart l (sym (bit prev l) ∙ p);
      planned = λ l p. v.planned l (sym (bit prev l) ∙ p);
      entries = λ k m.
          subst (λ s. All (IsOf snapshot) (L.contents k s)) (sym f.same_logs) (v.entries k m);
      kept = λ l h. frame-Kept snapshot l (v.kept l h);
    }

    pub frame-Boundary :
        (todo : List ℕ) → Boundary L offset ctxs prev w todo → Boundary L offset ctxs prev w' todo
    frame-Boundary todo b = record {
      valid = subst L.Valid (sym f.same_logs) b.valid;
      idle = λ l. bit (not prev) l ∙ b.idle l;
      empty = λ k m. ap (L.contents k) f.same_logs ∙ b.empty k m;
      clean = λ l h c.
          ap (λ m. m (nvm_addr offset l)) f.same_nvm
          ∙ b.clean l h (sym (bit prev l) ∙ c)
          ∙ sym (ap (λ m. m (line_addr l)) f.same_dram);
      planned = λ l p. b.planned l (sym (bit prev l) ∙ p);
    }

  -- The snapshot of a boundary may be any that agrees with DRAM on the lines of the heap.
  pub Boundary-Inv-agrees :
      (w : World State) (todo : List ℕ) (snapshot : ℕ → Cacheline)
      → Boundary L offset ctxs prev w todo
      → ((l : ℕ) → l < num_lines → snapshot l ≡ w.dram (line_addr l))
      → Inv L offset ctxs prev snapshot w todo
  Boundary-Inv-agrees w todo snapshot b agrees = record {
    valid = b.valid;
    unwritten = λ l h c. sym (agrees l h);
    apart = λ l p. b.idle l;
    planned = b.planned;
    entries = λ k m. subst (All (IsOf snapshot)) (sym (b.empty k m)) tt;
    kept = λ l h. elim (Bool-cases (is_set (w.bitmap prev) l)) [
      | inl marked ↦ pending marked
      | inr clear ↦ stored (b.clean l h clear ∙ sym (agrees l h))
    ];
  }

  -- A visit touches the bitmap of the previous epoch and the logs alone.
  pub record Visit (w w' : World State) : Type 0 where
    pub same_bits : (x : ℕ) → is_set (w'.bitmap (not prev)) x ≡ is_set (w.bitmap (not prev)) x
    pub same_dram : w'.dram ≡ w.dram
    pub same_nvm : w'.nvm ≡ w.nvm
    pub same_list : w'.addrlist ≡ w.addrlist

  pub log_line-Visit :
      (l : ℕ) (w w' : World State) → log_line L prev (line_addr l) l w ≡ some w' → Visit w w'
  unfolding log_line
  log_line-Visit l w w' h =
      let pushed = Option-cases (
        L.push_back_and_clwb 0 (record { addr = line_addr l; val = w.dram (line_addr l) })
          w.logs) in
      record {
        same_bits =
            λ x. ground (arith, Bool-cases prev, pushed, Bool-cases (is_set (w.bitmap prev) l));
        same_dram = ground (arith, pushed);
        same_nvm = ground (arith, pushed);
        same_list = ground (arith, pushed);
      }

-- A step within an epoch takes back nothing of the wait.
pub passed_kept :
    {n : ℕ} {s t : System}
    → Step n s t
    → t.global_epoch ≡ s.global_epoch
    → (i : ℕ) → s.passed i ≡ true
    → t.passed i ≡ true
passed_kept (load i h) g j p = p
passed_kept (publish i e h) g j p = p
passed_kept (enter i e h q) g j p = p
passed_kept (retry i e h q) g j p = p
passed_kept (leave i e h) g j p = p
passed_kept (pass i l h) g j p = ground arith
passed_kept (change_phase e h) g j p = p
passed_kept (advance e all h) g j p = absurd (omega (arith, ap epoch g))

-- Where the counter rises, no thread moves.
pub pc_kept :
    {n : ℕ} {s t : System}
    → Step n s t
    → epoch t.global_epoch ≡ epoch s.global_epoch + 1
    → t.pc ≡ s.pc
pc_kept (load i h) g = absurd (omega (arith, g))
pc_kept (publish i e h) g = absurd (omega (arith, g))
pc_kept (enter i e h q) g = absurd (omega (arith, g))
pc_kept (retry i e h q) g = absurd (omega (arith, g))
pc_kept (leave i e h) g = absurd (omega (arith, g))
pc_kept (pass i l h) g = absurd (omega (arith, g))
pc_kept (change_phase e h) g = absurd (omega (arith, g, h))
pc_kept (advance e all h) g = refl
