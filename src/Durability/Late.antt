-- ===== src/Durability/Late.antt =====
-- While operations of two epochs run: marks and writes of the epoch that ends, and those of the next
-- one, keep the invariant of the checkpoint for a snapshot that follows the former.
use escort.Prelude.{
  ℕ, suc, ◌<◌, ◌≡◌, refl, sym, ap, subst, inl, inr, Bool, true, false, not, some, List, [], ◌∷◌,
  ◌++◌, ◌==◌, if◌then◌else◌, update, count, All, All-append, Bool-cases, ==_iff, arith,
}
use escort.Address.{num_lines, line_addr}
use escort.Bitmap.{is_set}
use escort.Plog.{Entry, Cacheline}
use escort.World.{World}
use escort.RedoLog.{RedoLogs}
use escort.Userthread.{mark_line}
use escort.Snapshot.{line_of, IsOf, log_ids, Kept, stored, pending, logged, Inv}
use escort.Snapshot.Steps.{mark_line_cases, Marked, line_entry, after_visit, after_mark}
use escort.Durability.Marks.{with_bit, mark_line_alone}

module _ (L : RedoLogs) (offset : ℕ) (ctxs : List ℕ) (prev : Bool) where
  open L use {State, contents}

  -- Every entry in a log is for a line that the next epoch has marked.
  abbrev pub Copied : World State → Type 0
  Copied w =
      (k : ℕ)
      → 0 < count k (log_ids ctxs)
      → All (λ e. is_set (w.bitmap (not prev)) (line_of e) ≡ true) (contents k w.logs)

  module _ {snapshot : ℕ → Cacheline} {w : World State} {todo : List ℕ}
      (v : Inv L offset ctxs prev snapshot w todo) (l : ℕ) (bound : l < num_lines)
      (ordered : is_set (w.bitmap (not prev)) l ≡ false) where
    kept_bit :
        (x : ℕ)
        → Kept L offset ctxs prev snapshot w x
        → Kept L offset ctxs prev snapshot (with_bit L prev l w) x
    kept_bit x (stored s) = stored s
    kept_bit x (pending p) = pending (ground (arith, Bool-cases prev))
    kept_bit x (logged k m h) = logged k m h

    with_bit-Inv : Inv L offset ctxs prev snapshot (with_bit L prev l w) (l ∷ todo)
    with_bit-Inv = record {
      valid = v.valid;
      unwritten = λ x h c. v.unwritten x h (ground (arith, Bool-cases prev));
      apart = λ x p. ground (arith, Bool-cases prev, v.apart x, ==_iff l x);
      planned = λ x p. ground (arith, Bool-cases prev, v.planned x, ==_iff l x);
      entries = v.entries;
      kept = λ x h. kept_bit x (v.kept x h);
    }

    -- One more line to visit does no harm.
    more-Inv : Inv L offset ctxs prev snapshot w (l ∷ todo)
    more-Inv = record {
      valid = v.valid;
      unwritten = v.unwritten;
      apart = v.apart;
      planned = λ x p. ground (arith, v.planned x p);
      entries = v.entries;
      kept = v.kept;
    }

    pub late_mark-Inv :
        (i : ℕ) (has_set : Bool) (w' : World State)
        → mark_line L i prev (line_addr l) l w ≡ some (has_set, w')
        → Inv L offset ctxs prev snapshot w' (l ∷ todo)
    late_mark-Inv i has_set w' h =
        elim (mark_line_alone L i prev (line_addr l) l has_set w w' ordered h) [
          | inl same ↦ subst (λ u. Inv L offset ctxs prev snapshot u (l ∷ todo)) (sym same) more-Inv
          | inr set ↦
              subst (λ u. Inv L offset ctxs prev snapshot u (l ∷ todo)) (sym set) with_bit-Inv
        ]

    -- An entry for another line is one of the later snapshot too.
    entries_later :
        (val : Cacheline) (es : List Entry)
        → All (IsOf snapshot) es
        → All (λ e. is_set (w.bitmap (not prev)) (line_of e) ≡ true) es
        → All (IsOf (update snapshot l val)) es
    entries_later val [] a c = tt
    entries_later val (e ∷ es) a c = (
      (
        (a.0).0,
        (a.0).1,
        ground
            (arith, (a.0).2, c.0, ==_iff l (line_of e), ap (λ x. is_set (w.bitmap (not prev)) x)),
      ),
      entries_later val es a.1 c.1,
    )

    pub late_write-Inv :
        (val : Cacheline)
        → is_set (w.bitmap prev) l ≡ true
        → Copied w
        → Inv L offset ctxs prev
            (update snapshot l val)
            (record w { dram = update w.dram (line_addr l) val })
            todo
    late_write-Inv val marked copied = record {
      valid = v.valid;
      unwritten = λ x h c. ground (arith, v.unwritten x h c, ==_iff l x);
      apart = v.apart;
      planned = v.planned;
      entries = λ k m. entries_later val (contents k w.logs) (v.entries k m) (copied k m);
      kept = λ x h. kept_later x (v.kept x h);
    }
      where
        other_line :
            (x : ℕ)
            → (l == x) ≡ false
            → Kept L offset ctxs prev snapshot w x
            → Kept L offset ctxs prev
                (update snapshot l val)
                (record w { dram = update w.dram (line_addr l) val })
                x
        other_line x other (stored s) = stored (ground (arith, s))
        other_line x other (pending p) = pending p
        other_line x other (logged k m h) = logged k m h

        kept_later :
            (x : ℕ)
            → Kept L offset ctxs prev snapshot w x
            → Kept L offset ctxs prev
                (update snapshot l val)
                (record w { dram = update w.dram (line_addr l) val })
                x
        kept_later x k = elim (Bool-cases (l == x)) [
          | inl same ↦ pending (ground (arith, ==_iff l x))
          | inr other ↦ other_line x other k
        ]

  abbrev Marks : World State → List Entry → Type 0
  Marks w = All (λ e. is_set (w.bitmap (not prev)) (line_of e) ≡ true)

  Marks-grow :
      (w w' : World State) (es : List Entry)
      → ((x : ℕ) → is_set (w.bitmap (not prev)) x ≡ true → is_set (w'.bitmap (not prev)) x ≡ true)
      → Marks w es
      → Marks w' es
  Marks-grow w w' [] grow a = tt
  Marks-grow w w' (e ∷ es) grow a = (grow (line_of e) a.0, Marks-grow w w' es grow a.1)

  -- A mark of either epoch keeps the bits of the next one.
  pub grown-Copied :
      (w w' : World State)
      → w'.logs ≡ w.logs
      → ((x : ℕ) → is_set (w.bitmap (not prev)) x ≡ true → is_set (w'.bitmap (not prev)) x ≡ true)
      → Copied w
      → Copied w'
  grown-Copied w w' same grow copied k m =
      subst (λ s. Marks w' (contents k s)) (sym same)
        (Marks-grow w w' (contents k w.logs) grow (copied k m))

  -- A mark of the epoch that ends copies nothing.
  pub late_mark-Copied :
      (i l : ℕ) (has_set : Bool) (w w' : World State)
      → is_set (w.bitmap (not prev)) l ≡ false
      → mark_line L i prev (line_addr l) l w ≡ some (has_set, w')
      → Copied w
      → Copied w'
  late_mark-Copied i l has_set w w' ordered h copied =
      elim (mark_line_alone L i prev (line_addr l) l has_set w w' ordered h) [
        | inl same ↦ subst Copied (sym same) copied
        | inr set ↦ subst Copied (sym set) (
            grown-Copied w (with_bit L prev l w) refl (λ x b. ground (arith, Bool-cases prev))
              copied)
      ]

  -- A mark of the next epoch copies only what it then marks.
  pub mark-Copied :
      (i l : ℕ) (has_set : Bool) (w w' : World State)
      → L.Valid w.logs
      → l < num_lines
      → mark_line L i (not prev) (line_addr l) l w ≡ some (has_set, w')
      → Copied w
      → Copied w'
  mark-Copied i l has_set w w' v bound h copied =
      split (mark_line_cases L offset ctxs prev i l w w' has_set h)
    where
      at_line : line_of (line_entry L offset ctxs prev w l) ≡ l
      at_line = omega arith

      old :
          (logs' : State) (k : ℕ)
          → 0 < count k (log_ids ctxs)
          → Marks
              (after_mark L offset ctxs prev (after_visit L offset ctxs prev w l logs') l)
              (contents k w.logs)
      old logs' k m =
          Marks-grow w (after_mark L offset ctxs prev (after_visit L offset ctxs prev w l logs') l)
            (contents k w.logs) (λ x b. ground (arith, Bool-cases prev)) (copied k m)

      pushed :
          (logs' : State) (k : ℕ)
          → 0 < count k (log_ids ctxs)
          → (b : Bool)
          → Marks (after_mark L offset ctxs prev (after_visit L offset ctxs prev w l logs') l) (
              if b
              then contents k w.logs ++ line_entry L offset ctxs prev w l ∷ []
              else contents k w.logs)
      pushed logs' k m true =
          All-append _ (contents k w.logs) (line_entry L offset ctxs prev w l ∷ []) (old logs' k m)
            (ground (arith, Bool-cases prev, at_line), tt)
      pushed logs' k m false = old logs' k m

      split : Marked L offset ctxs prev i l w w' → Copied w'
      split (inl same) = subst Copied (sym same) copied
      split (inr (inl (clear, same))) = subst Copied (sym same) (
          grown-Copied w (after_mark L offset ctxs prev w l) refl
            (λ x b. ground (arith, Bool-cases prev)) copied)
      split (inr (inr (bit, logs', push, same))) = subst Copied (sym same) λ k m.
          subst (Marks (after_mark L offset ctxs prev (after_visit L offset ctxs prev w l logs') l))
            (sym
              (L.contents-push (suc i) (line_entry L offset ctxs prev w l) w.logs logs' v push k))
            (pushed logs' k m (suc i == k))
