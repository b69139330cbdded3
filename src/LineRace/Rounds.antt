-- ===== src/LineRace/Rounds.antt =====
-- A round of `mark` and a visit of `log_persistence_unit`, as `Userthread` and `Checkpoint` have them, taken
-- apart into accesses to their line.
use escort.Prelude.{
  ℕ, suc, ◌≡◌, refl, sym, ◌∙◌, subst, inl, inr, Bool, true, false, not, some, List, [], ◌∷◌, ◌++◌,
  ◌==◌, if◌then◌else◌, Bool-cases, Option-cases, ==_iff, arith,
}
use escort.Address.{line_addr}
use escort.Bitmap
use escort.Bitmap.{is_set}
use escort.Plog.{Entry, Cacheline}
use escort.World.{World}
use escort.RedoLog.{RedoLogs}
use escort.Userthread.{copy_on_write, mark_line}
use escort.Checkpoint.{log_line}
use escort.Snapshot.{line_of, nvm_addr}
use escort.Snapshot.Steps.{line_entry, after_visit, after_mark}
use escort.LineRace.{
  Marking, testing_curr, clearing_prev, writing, Logging, testing, replaying, Line, Step, marked,
  unmarked, found_logged, found_unlogged, clear_prev, copy, push, set_curr, visit_unset, visit_set,
  read_value, push_value, clear_visited,
}

-- What a log has for a line.
abbrev pub values : ℕ → List Entry → List Cacheline
values l [] = []
values l (e ∷ es) = if line_of e == l then e.val ∷ values l es else values l es

values-append :
    (l : ℕ) (es : List Entry) (e : Entry)
    → line_of e ≡ l
    → values l (es ++ e ∷ []) ≡ values l es ++ e.val ∷ []
values-append l [] e h = ground (arith, ==_iff (line_of e) l)
values-append l (x ∷ es) e h = ground (arith, values-append l es e h)

pub data Steps (s : Line) : Line → Type 0 where
  none : Steps s s
  more : {t u : Line} → Steps s t → Step t u → Steps s u

abbrev line_with :
    Cacheline
    → Cacheline
    → Bool
    → Bool
    → List Cacheline
    → List Cacheline
    → Marking
    → Logging
    → Cacheline
    → Bool
    → Line
line_with d v p c x t m g o b = record {
  dram = d;
  nvm = v;
  prev = p;
  curr = c;
  log = x;
  thread_log = t;
  marking = m;
  logging = g;
  snapshot = o;
  overtaken = b;
}

same_fields :
    {d v o : Cacheline} {p p' c c' b : Bool} {x x' t t' : List Cacheline} {m : Marking}
    {g : Logging}
    → p ≡ p'
    → c ≡ c'
    → x ≡ x'
    → t ≡ t'
    → line_with d v p c x t m g o b ≡ line_with d v p' c' x' t' m g o b
same_fields hp hc hx ht = cc

module _ (L : RedoLogs) (offset : ℕ) (ctxs : List ℕ) (prev : Bool) (i l : ℕ) (snapshot : Cacheline)
    (overtaken : Bool) where
  open L use {State, contents}

  -- The line of a world, with thread `i` and the checkpointing thread where they stand.
  abbrev pub line_in : World State → Marking → Logging → Line
  line_in w m g =
      line_with (w.dram (line_addr l)) (w.nvm (nvm_addr offset l)) (is_set (w.bitmap prev) l)
        (is_set (w.bitmap (not prev)) l) (values l (contents 0 w.logs))
        (values l (contents (suc i) w.logs)) m g snapshot overtaken

  pushed_values :
      (k j : ℕ) (w : World State) (logs' : State)
      → L.Valid w.logs
      → L.push_back_and_clwb k (line_entry L offset ctxs prev w l) w.logs ≡ some logs'
      → values l (contents j logs') ≡ (
          if k == j
          then values l (contents j w.logs) ++ w.dram (line_addr l) ∷ []
          else values l (contents j w.logs))
  pushed_values k j w logs' v h = ground (
    arith,
    L.contents-push k (line_entry L offset ctxs prev w l) w.logs logs' v h j,
    values-append l (contents j w.logs) (line_entry L offset ctxs prev w l) (omega arith),
  )

  own_bit :
      (w : World State) → is_set ((after_mark L offset ctxs prev w l).bitmap (not prev)) l ≡ true
  own_bit w = ground (arith, Bool-cases prev)

  other_bit :
      (w : World State)
      → is_set ((after_mark L offset ctxs prev w l).bitmap prev) l ≡ is_set (w.bitmap prev) l
  other_bit w = ground (arith, Bool-cases prev)

  cleared_bit :
      (w : World State) (logs' : State)
      → is_set ((after_visit L offset ctxs prev w l logs').bitmap prev) l ≡ false
  cleared_bit w logs' = ground (arith, Bool-cases prev)

  kept_bit :
      (w : World State) (logs' : State)
      → is_set ((after_visit L offset ctxs prev w l logs').bitmap (not prev)) l
        ≡ is_set (w.bitmap (not prev)) l
  kept_bit w logs' = ground (arith, Bool-cases prev)

  module _ (w : World State) (g : Logging) (new : is_set (w.bitmap (not prev)) l ≡ false) where
    without_copy :
        is_set (w.bitmap prev) l ≡ false
        → Steps (line_in w testing_curr g) (line_in (after_mark L offset ctxs prev w l) writing g)
    without_copy clear =
        subst (Steps (line_in w testing_curr g))
          (same_fields {t = values l (contents (suc i) w.logs)} (sym (other_bit w))
            (sym (own_bit w)) refl refl)
          (more (more (more none (unmarked refl new)) (found_logged refl clear)) (set_curr refl))

    with_copy :
        (logs' : State)
        → L.Valid w.logs
        → is_set (w.bitmap prev) l ≡ true
        → L.push_back_and_clwb (suc i) (line_entry L offset ctxs prev w l) w.logs ≡ some logs'
        → Steps (line_in w testing_curr g) (
            line_in
              (after_mark L offset ctxs prev (after_visit L offset ctxs prev w l logs') l)
              writing
              g)
    with_copy logs' v bit push_ok =
        let w₁ : World State = after_visit L offset ctxs prev w l logs' in
        let tested : Steps (line_in w testing_curr g) (line_in w clearing_prev g) =
          more (more none (unmarked refl new)) (found_unlogged refl bit) in
        subst (Steps (line_in w testing_curr g))
          (same_fields (sym (other_bit w₁ ∙ cleared_bit w logs')) (sym (own_bit w₁))
            (sym (ground (arith, pushed_values (suc i) 0 w logs' v push_ok)))
            (sym (ground (arith, pushed_values (suc i) (suc i) w logs' v push_ok))))
          (more
            (more (more (more tested (clear_prev refl)) (copy refl))
              (push (w.dram (line_addr l)) refl))
            (set_curr refl))

  -- In a world with valid logs a round of `mark` for the line that returns is a run of the accesses of its
  -- thread, from the test of the bit of its epoch to the end of the round, wherever the checkpointing
  -- thread stands: it leads from the line of the world before to that of the world after.
  pub mark_line-Steps :
      (w w' : World State) (has_set : Bool) (g : Logging)
      → L.Valid w.logs
      → mark_line L i (not prev) (line_addr l) l w ≡ some (has_set, w')
      → Steps (line_in w testing_curr g) (line_in w' writing g)
  unfolding mark_line copy_on_write Bitmap.set
  mark_line-Steps w w' has_set g v h = elim (Bool-cases (is_set (w.bitmap (not prev)) l)) [
    | inl set ↦
        let same : w' ≡ w = ground arith in
        subst (λ u. Steps (line_in w testing_curr g) (line_in u writing g)) (sym same)
          (more none (marked refl set))
    | inr new ↦ elim (Bool-cases (is_set (w.bitmap prev) l)) [
      | inr clear ↦
          let same : w' ≡ after_mark L offset ctxs prev w l = ground (arith, Bool-cases prev) in
          subst (λ u. Steps (line_in w testing_curr g) (line_in u writing g)) (sym same)
            (without_copy w g new clear)
      | inl bit ↦
          elim (Option-cases
            (L.push_back_and_clwb (suc i) (line_entry L offset ctxs prev w l) w.logs)) [
              | inl failed ↦ absurd (ground (arith, Bool-cases prev))
              | inr (logs', got) ↦
                  let same : w'
                      ≡ after_mark L offset ctxs prev (after_visit L offset ctxs prev w l logs') l =
                    ground (arith, Bool-cases prev, got) in
                  subst (λ u. Steps (line_in w testing_curr g) (line_in u writing g)) (sym same)
                    (with_copy w g new logs' v bit got)
            ]
    ]
  ]

  with_entry :
      (w : World State) (logs' : State) (m : Marking)
      → L.Valid w.logs
      → is_set (w.bitmap prev) l ≡ true
      → L.push_back_and_clwb 0 (line_entry L offset ctxs prev w l) w.logs ≡ some logs'
      → Steps (line_in w m testing) (line_in (after_visit L offset ctxs prev w l logs') m replaying)
  with_entry w logs' m v bit push_ok =
      subst (Steps (line_in w m testing))
        (same_fields (sym (cleared_bit w logs')) (sym (kept_bit w logs'))
          (sym (ground (arith, pushed_values 0 0 w logs' v push_ok)))
          (sym (ground (arith, pushed_values 0 (suc i) w logs' v push_ok))))
        (more
          (more (more (more none (visit_set refl bit)) (read_value refl))
            (push_value (w.dram (line_addr l)) refl))
          (clear_visited refl))

  -- So is a visit of the line by `log_persistence_unit`, wherever the thread is.
  pub log_line-Steps :
      (w w' : World State) (m : Marking)
      → L.Valid w.logs
      → log_line L prev (line_addr l) l w ≡ some w'
      → Steps (line_in w m testing) (line_in w' m replaying)
  unfolding log_line
  log_line-Steps w w' m v h = elim (Bool-cases (is_set (w.bitmap prev) l)) [
    | inr clear ↦
        let same : w' ≡ w = ground arith in
        subst (λ u. Steps (line_in w m testing) (line_in u m replaying)) (sym same)
          (more none (visit_unset refl clear))
    | inl bit ↦
        elim (Option-cases (L.push_back_and_clwb 0 (line_entry L offset ctxs prev w l) w.logs)) [
          | inl failed ↦ absurd (ground arith)
          | inr (logs', got) ↦
              let same : w' ≡ after_visit L offset ctxs prev w l logs' = ground (arith, got) in
              subst (λ u. Steps (line_in w m testing) (line_in u m replaying)) (sym same)
                (with_entry w logs' m v bit got)
        ]
  ]
