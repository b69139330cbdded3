-- ===== src/Snapshot/Steps.antt =====
-- Every step keeps the invariant of the checkpoint.
use escort.Prelude.{
  ℕ, suc, ◌<◌, ◌≡◌, refl, sym, ap, ◌∙◌, subst, ◌⊎◌, inl, inr, Bool, true, false, not, some, List,
  [], ◌∷◌, ◌++◌, ◌==◌, if◌then◌else◌, update, count, All, All-append, Bool-cases, Option-cases,
  ==_iff, count-map-suc, arith,
}
use escort.Address.{num_lines, line_addr}
use escort.Bitmap
use escort.Bitmap.{Bitmap, is_set}
use escort.Plog.{Entry, Cacheline}
use escort.World.{World, put}
use escort.RedoLog.{RedoLogs}
use escort.Userthread.{mark_line}
use escort.Checkpoint.{log_line}
use escort.Snapshot.{
  line_of, IsOf, holds, log_ids, Kept, stored, pending, logged, Inv, Step, visit, mark, write,
  Reach, start, later,
}
use escort.Snapshot.Entries.{holds-append}

module _ (L : RedoLogs) (offset : ℕ) (ctxs : List ℕ) (prev : Bool) where
  open L use {State, Valid, push_back_and_clwb, contents, push-Valid, contents-push}

  abbrev pub line_entry : World State → ℕ → Entry
  line_entry w l = record { addr = line_addr l; val = w.dram (line_addr l) }

  abbrev pub after_visit : World State → ℕ → State → World State
  after_visit w l logs' = record w {
    logs = logs';
    bitmap = put prev (Bitmap.clear l (w.bitmap prev)) w.bitmap;
  }

  abbrev pub after_mark : World State → ℕ → World State
  after_mark w l = record w {
    bitmap =
        put (not prev)
          (record (w.bitmap (not prev)) { bitmap = update (w.bitmap (not prev)).bitmap l true })
          w.bitmap;
  }

  module _ {snapshot : ℕ → Cacheline} {w : World State} {todo : List ℕ}
      (v : Inv L offset ctxs prev snapshot w todo) (l : ℕ) (bound : l < num_lines)
      (bit : is_set (w.bitmap prev) l ≡ true) (k : ℕ) (member : 0 < count k (log_ids ctxs))
      (logs' : State) (push : push_back_and_clwb k (line_entry w l) w.logs ≡ some logs')
      (bitmap' : Bool → Bitmap)
      (cleared : (x : ℕ)
        → is_set (bitmap' prev) x ≡ (if l == x then false else is_set (w.bitmap prev) x))
      (others : (x : ℕ)
        → (l == x) ≡ false
        → is_set (bitmap' (not prev)) x ≡ is_set (w.bitmap (not prev)) x) where
    abbrev after_push : World State
    after_push = record w { logs = logs'; bitmap = bitmap' }

    value : w.dram (line_addr l) ≡ snapshot l
    value = v.unwritten l bound (v.apart l bit)

    line : line_of (line_entry w l) ≡ l
    line = omega arith

    new_contents :
        (j : ℕ)
        → contents j logs'
          ≡ (if k == j then contents j w.logs ++ line_entry w l ∷ [] else contents j w.logs)
    new_contents = contents-push k (line_entry w l) w.logs logs' v.valid push

    new_entry : IsOf snapshot (line_entry w l)
    new_entry = (omega arith, omega arith, value ∙ ap snapshot (sym line))

    entries_kept : (j : ℕ) → 0 < count j (log_ids ctxs) → All (IsOf snapshot) (contents j logs')
    entries_kept j m =
        subst (All (IsOf snapshot)) (sym (new_contents j))
          (elim (k == j)
            as (λ b.
              All (IsOf snapshot)
                (if b then contents j w.logs ++ line_entry w l ∷ [] else contents j w.logs)) [
                  | true ↦
                      All-append (IsOf snapshot) (contents j w.logs) (line_entry w l ∷ [])
                        (v.entries j m) (new_entry, tt)
                  | false ↦ v.entries j m
                ])

    in_new_log : holds l (contents k logs') ≡ true
    in_new_log =
        ground
          (arith, new_contents k, line, holds-append l (contents k w.logs) (line_entry w l ∷ []))

    kept_line :
        (x : ℕ)
        → Kept L offset ctxs prev snapshot w x
        → Kept L offset ctxs prev snapshot after_push x
    kept_line x (stored s) = stored s
    kept_line x (pending p) = elim (Bool-cases (l == x)) [
      | inl same ↦
          subst (Kept L offset ctxs prev snapshot after_push) ((==_iff l x).0 same)
            (logged k member in_new_log)
      | inr other ↦ pending (ground (arith, cleared x))
    ]
    kept_line x (logged j m h) =
        logged j m
          (ground (arith, new_contents j, holds-append x (contents j w.logs) (line_entry w l ∷ [])))

    after_push-Inv :
        {todo' : List ℕ}
        → ((x : ℕ) → (l == x) ≡ false → 0 < count x todo → 0 < count x todo')
        → Inv L offset ctxs prev snapshot after_push todo'
    after_push-Inv rest = record {
      valid = push-Valid k (line_entry w l) w.logs logs' v.valid push;
      unwritten = λ x h c. elim (Bool-cases (l == x)) [
        | inl same ↦ subst (λ y. w.dram (line_addr y) ≡ snapshot y) ((==_iff l x).0 same) value
        | inr other ↦ v.unwritten x h (sym (others x other) ∙ c)
      ];
      apart = λ x p. ground (arith, cleared x, others x, v.apart x);
      planned = λ x p. ground (arith, cleared x, rest x, v.planned x);
      entries = entries_kept;
      kept = λ x h. kept_line x (v.kept x h);
    }

  -- What a visit does: nothing to a line whose bit is clear, else an entry and a cleared bit.
  abbrev Visited : ℕ → World State → World State → Type 0
  Visited l w w' =
      ((is_set (w.bitmap prev) l ≡ false) × (w' ≡ w))
      ⊎ ((is_set (w.bitmap prev) l ≡ true)
          × (logs' : State) × (push_back_and_clwb 0 (line_entry w l) w.logs ≡ some logs')
          × (w' ≡ after_visit w l logs'))

  log_line_cases :
      (l : ℕ) (w w' : World State) → log_line L prev (line_addr l) l w ≡ some w' → Visited l w w'
  unfolding log_line
  log_line_cases l w w' h = elim (Bool-cases (is_set (w.bitmap prev) l)) [
    | inl bit ↦ elim (Option-cases (push_back_and_clwb 0 (line_entry w l) w.logs)) [
      | inl failed ↦ absurd (ground arith)
      | inr (logs', got) ↦ inr (bit, logs', got, ground arith)
    ]
    | inr clear ↦ inl (clear, ground arith)
  ]

  -- What a round of `mark` in the new epoch does: nothing to a line that is marked, else it sets the
  -- bit, after an entry if the line was still to be logged.
  abbrev pub Marked : ℕ → ℕ → World State → World State → Type 0
  Marked i l w w' =
      (w' ≡ w)
      ⊎ ((is_set (w.bitmap prev) l ≡ false) × (w' ≡ after_mark w l))
      ⊎ ((is_set (w.bitmap prev) l ≡ true)
          × (logs' : State) × (push_back_and_clwb (suc i) (line_entry w l) w.logs ≡ some logs')
          × (w' ≡ after_mark (after_visit w l logs') l))

  pub mark_line_cases :
      (i l : ℕ) (w w' : World State) (has_set : Bool)
      → mark_line L i (not prev) (line_addr l) l w ≡ some (has_set, w')
      → Marked i l w w'
  unfolding mark_line Bitmap.set
  mark_line_cases i l w w' has_set h = elim (Bool-cases (is_set (w.bitmap (not prev)) l)) [
    | inl marked ↦ inl (ground arith)
    | inr new ↦ elim (Bool-cases (is_set (w.bitmap prev) l)) [
      | inr clear ↦ inr (inl (clear, ground (arith, Bool-cases prev)))
      | inl bit ↦ elim (Option-cases (push_back_and_clwb (suc i) (line_entry w l) w.logs)) [
        | inl failed ↦ absurd (ground (arith, Bool-cases prev))
        | inr (logs', got) ↦ inr (inr (bit, logs', got, ground (arith, Bool-cases prev)))
      ]
    ]
  ]

  module _ {snapshot : ℕ → Cacheline} {w : World State} {todo : List ℕ}
      (v : Inv L offset ctxs prev snapshot w todo) (l : ℕ) (bound : l < num_lines) where
    abbrev Keeps : World State → List ℕ → Type 0
    Keeps = Inv L offset ctxs prev snapshot

    -- A line whose bit is clear needs no visit.
    skip-Inv : {rest : List ℕ} → todo ≡ l ∷ rest → is_set (w.bitmap prev) l ≡ false → Keeps w rest
    skip-Inv e clear = record {
      valid = v.valid;
      unwritten = v.unwritten;
      apart = v.apart;
      entries = v.entries;
      kept = v.kept;
      planned = λ x p. ground (arith, v.planned x, ap (count x) e, ==_iff l x);
    }

    visit-Inv :
        {rest : List ℕ} (w' : World State) → todo ≡ l ∷ rest → Visited l w w' → Keeps w' rest
    visit-Inv {rest} w' e (inl (clear, same)) =
        subst (λ u. Keeps u rest) (sym same) (skip-Inv e clear)
    visit-Inv {rest} w' e (inr (bit, logs', push, same)) =
        subst (λ u. Keeps u rest) (sym same)
          (after_push-Inv v l bound bit 0 (omega arith) logs' push _
            (λ x. ground (arith, Bool-cases prev)) (λ x n. ground (arith, Bool-cases prev))
            (λ x n c. ground (arith, ap (count x) e)))

    kept_marked :
        (x : ℕ)
        → Kept L offset ctxs prev snapshot w x
        → Kept L offset ctxs prev snapshot (after_mark w l) x
    kept_marked x (stored s) = stored s
    kept_marked x (pending p) = pending (ground (arith, Bool-cases prev))
    kept_marked x (logged k m h) = logged k m h

    -- A bit of the new epoch may be set where the bit of the previous one is clear.
    after_mark-Inv : is_set (w.bitmap prev) l ≡ false → Keeps (after_mark w l) todo
    after_mark-Inv clear = record {
      valid = v.valid;
      unwritten = λ x h c. v.unwritten x h (ground (arith, Bool-cases prev));
      apart = λ x p. ground (arith, Bool-cases prev, v.apart x, ==_iff l x);
      planned = λ x p. v.planned x (ground (arith, Bool-cases prev));
      entries = v.entries;
      kept = λ x h. kept_marked x (v.kept x h);
    }

    mark-Inv : (i : ℕ) (w' : World State) → 0 < count i ctxs → Marked i l w w' → Keeps w' todo
    mark-Inv i w' m (inl same) = subst (λ u. Keeps u todo) (sym same) v
    mark-Inv i w' m (inr (inl (clear, same))) =
        subst (λ u. Keeps u todo) (sym same) (after_mark-Inv clear)
    mark-Inv i w' m (inr (inr (bit, logs', push, same))) =
        subst (λ u. Keeps u todo) (sym same)
          (after_push-Inv v l bound bit (suc i) (ground (arith, count-map-suc i ctxs)) logs' push _
            (λ x. ground (arith, Bool-cases prev)) (λ x n. ground (arith, Bool-cases prev))
            (λ x n c. c))

    write-Inv :
        (val : Cacheline)
        → is_set (w.bitmap (not prev)) l ≡ true
        → Keeps (record w { dram = update w.dram (line_addr l) val }) todo
    write-Inv val marked = record {
      valid = v.valid;
      unwritten = λ x h c. ground (arith, v.unwritten x h c, ==_iff l x);
      apart = v.apart;
      planned = v.planned;
      entries = v.entries;
      kept = λ x h. kept_written x (v.kept x h);
    }
      where
        kept_written :
            (x : ℕ)
            → Kept L offset ctxs prev snapshot w x
            → Kept L offset ctxs prev snapshot
                (record w { dram = update w.dram (line_addr l) val })
                x
        kept_written x (stored s) = stored s
        kept_written x (pending p) = pending p
        kept_written x (logged k m h) = logged k m h

  module _ {snapshot : ℕ → Cacheline} where
    -- Each step of the checkpointing thread or of a user thread keeps the invariant.
    pub Step-Inv :
        {w w' : World State} {todo todo' : List ℕ}
        → Step L offset ctxs prev w todo w' todo'
        → Inv L offset ctxs prev snapshot w todo
        → Inv L offset ctxs prev snapshot w' todo'
    Step-Inv {w} {w'} (visit {l} bound e) v = visit-Inv v l bound w' refl (log_line_cases l w w' e)
    Step-Inv {w} {w'} (mark i l has_set m bound e) v =
        mark-Inv v l bound i w' m (mark_line_cases i l w w' has_set e)
    Step-Inv (write l val bound marked) v = write-Inv v l bound val marked

    -- So it holds after any interleaving of them.
    pub Reach-Inv :
        {w : World State} {todo : List ℕ} {w' : World State} {todo' : List ℕ}
        → Reach L offset ctxs prev w todo w' todo'
        → Inv L offset ctxs prev snapshot w todo
        → Inv L offset ctxs prev snapshot w' todo'
    Reach-Inv start v = v
    Reach-Inv (later r st) v = Step-Inv st (Reach-Inv r v)
