-- ===== src/Durability/MarkSteps.antt =====
-- The steps of `mark`, which leave the promised heaps as they are.
use escort.Prelude.{
  ℕ, suc, ◌+◌, ◌<◌, ◌≡◌, refl, sym, ap, ◌∙◌, subst, inl, inr, ◌⊎◌, Bool, true, false, not, ◌||◌,
  some, List, ◌∷◌, ◌==◌, if◌then◌else◌, update, ==_iff, arith,
}
use escort.Address.{num_lines, line_addr}
use escort.Bitmap.{is_set}
use escort.Plog.{Cacheline}
use escort.World.{World, curr_of}
use escort.RedoLog.{RedoLogs}
use escort.Userthread.{mark_line}
use escort.Snapshot
use escort.Snapshot.Steps
use escort.EpochProtocol.{inside}
use escort.EpochHeap.{Heaps}
use escort.Durability.{
  threads, marking, Phase, resting, waiting, logging, replaying, clearing, Run, Ordered,
}
use escort.Durability.Lines.{lines_of, threads_member}
use escort.Snapshot.Cycle.{prev_clear}
use escort.Durability.Marks.{Effect, mark_line-Effect, mark_line_alone}
use escort.Durability.Late.{late_mark-Inv, late_mark-Copied, mark-Copied}
use escort.Durability.Resting.{mark-Boundary}
use escort.Durability.Listed
use escort.Durability.Listed.{Listed-begin_mark}
use escort.Durability.Regions.{Listed-mark}
use escort.Durability.Invariant.{
  cur, AllListed, Open, Closing, Waiting, Updating, ToReplay, ToClear, IsDurable, InPhase,
  Simulates, passed-parity, waiting-parity,
}

twice : (b : Bool) → not (not b) ≡ b
twice true = refl
twice false = refl

module _ (L : RedoLogs) (offset n : ℕ) (s : Run L.State) (h : Heaps) (v : Simulates L offset n s h)
    (i e : ℕ) (r : i < n) (here : s.sys.pc i ≡ inside e) (first num_bits : ℕ) where
  open L use {State}

  module _ (done : ℕ) (flag has_set : Bool) (w : World State)
      (act : s.activity i ≡ marking first num_bits done flag) (more : done < num_bits)
      (ordered : Ordered L offset n s e (first + done))
      (eq : mark_line L i (curr_of e) (line_addr (first + done)) (first + done) s.world
        ≡ some (has_set, w)) where
    abbrev marked : Run State
    marked = record s {
      world = w;
      activity = update s.activity i (marking first num_bits (suc done) (flag || has_set));
    }

    abbrev line : ℕ
    line = first + done

    bound : line < num_lines
    bound = omega (arith, v.bounded i first num_bits done flag act)

    effect : Effect L (curr_of e) line has_set s.world w
    effect = mark_line-Effect L i (curr_of e) (line_addr line) line has_set s.world w eq

    eq_at :
        (c : Bool)
        → curr_of e ≡ c
        → mark_line L i c (line_addr line) line s.world ≡ some (has_set, w)
    eq_at c same =
        subst (λ k. mark_line L i k (line_addr line) line s.world ≡ some (has_set, w)) same eq

    own_at :
        (c : Bool)
        → curr_of e ≡ c
        → (x : ℕ)
        → is_set (w.bitmap c) x ≡ (if line == x then true else is_set (s.world.bitmap c) x)
    own_at c same x =
        subst
          (λ k. is_set (w.bitmap k) x ≡ (if line == x then true else is_set (s.world.bitmap k) x))
          same (effect.own_bits x)

    other_at :
        (c : Bool)
        → curr_of e ≡ not c
        → (x : ℕ) → is_set (w.bitmap c) x ≡ true
        → is_set (s.world.bitmap c) x ≡ true
    other_at c same x =
        subst (λ k. is_set (w.bitmap k) x ≡ true → is_set (s.world.bitmap k) x ≡ true)
          (ap not same ∙ twice c) (effect.other_bits x)

    relist : (c : Bool) → AllListed L offset n c s → AllListed L offset n c marked
    relist c lists =
        subst (λ list. Listed.Listed n c w.bitmap list s.sys.pc marked.activity)
          (sym effect.same_list)
          (Listed-mark n c s.world.bitmap w.bitmap s.world.addrlist s.sys.pc s.activity i e first
            num_bits done flag has_set r here act more (own_at c)
            (λ same.
              subst (λ k. (is_set (s.world.bitmap k) line ≡ true) ⊎ (has_set ≡ true)) same
                effect.was_set)
            (other_at c) lists)

    still-IsDurable : IsDurable L offset n s.world.nvm h → IsDurable L offset n w.nvm h
    still-IsDurable d l b = ap (λ m. m (Snapshot.nvm_addr offset l)) effect.same_nvm ∙ d l b

    mark-Open : Open L offset n s h → Open L offset n marked h
    mark-Open o =
        let same : curr_of e ≡ cur s.sys =
          passed-parity L offset n s v.protocol_holds i e r here o.passed in
        record {
          todo = line ∷ o.todo;
          boundary =
              mark-Boundary L offset (threads n) (cur s.sys) s.world o.todo o.boundary line i
                has_set w (eq_at (cur s.sys) same);
          not_closing = o.not_closing;
          passed = o.passed;
          lists = relist (cur s.sys) o.lists;
          durable = still-IsDurable o.durable;
        }

    module _ (p : Bool) (snapshot : ℕ → Cacheline) (todo : List ℕ)
        (c : Closing L offset n p snapshot todo s h) where
      mark-Closing : curr_of e ≡ not p → Closing L offset n p snapshot todo marked h
      mark-Closing new = record {
        parity = c.parity;
        inv =
            Snapshot.Steps.Step-Inv L offset (threads n) p
              (Snapshot.mark i line has_set (threads_member n i r) bound (eq_at (not p) new)) c.inv;
        is_closing = c.is_closing;
        lists = relist (not p) c.lists;
        cover = line ∷ c.cover;
        covers = λ x b. ground (arith, own_at (not p) new x, c.covers x, ==_iff line x);
        durable = still-IsDurable c.durable;
      }

      late_mark-Closing :
          curr_of e ≡ p
          → is_set (s.world.bitmap (not p)) line ≡ false
          → Closing L offset n p snapshot (line ∷ todo) marked h
      late_mark-Closing old alone = record {
        parity = c.parity;
        inv = late_mark-Inv L offset (threads n) p c.inv line bound alone i has_set w (eq_at p old);
        is_closing = c.is_closing;
        lists = relist (not p) c.lists;
        cover = c.cover;
        covers = λ x b. c.covers x (other_at (not p) (old ∙ sym (twice p)) x b);
        durable = still-IsDurable c.durable;
      }

    module _ (p : Bool) (snapshot : ℕ → Cacheline) (u : Updating L offset n p snapshot s h) where
      new_epoch : curr_of e ≡ not p
      new_epoch = passed-parity L offset n s v.protocol_holds i e r here u.passed ∙ u.parity

      mark-Updating : Updating L offset n p snapshot marked h
      mark-Updating = record {
        parity = u.parity;
        inv =
            Snapshot.Steps.Step-Inv L offset (threads n) p
              (Snapshot.mark i line has_set (threads_member n i r) bound (eq_at (not p) new_epoch))
              u.inv;
        not_closing = u.not_closing;
        passed = u.passed;
        lists = relist (not p) u.lists;
        cover = line ∷ u.cover;
        covers = λ x b. ground (arith, own_at (not p) new_epoch x, u.covers x, ==_iff line x);
        durable = u.durable;
      }

      -- No line of the old epoch is left to copy.
      same_logs : w.logs ≡ s.world.logs
      same_logs =
          elim (mark_line_alone L i (not p) (line_addr line) line has_set s.world w
            (ap (λ k. is_set (s.world.bitmap k) line) (twice p)
              ∙ prev_clear L offset (threads n) p snapshot s.world u.inv line)
            (eq_at (not p) new_epoch)) [
              | inl same ↦ ap (λ x. x.logs) same
              | inr set ↦ ap (λ x. x.logs) set
            ]

    mark-Waiting :
        (p : Bool) (snapshot : ℕ → Cacheline) (todo : List ℕ)
        → Waiting L offset n p snapshot todo s h
        → InPhase L offset n marked h waiting
    mark-Waiting p snapshot todo u =
        elim (waiting-parity L offset n s v.protocol_holds i e r here p line u.closing.parity
          ordered) [
            | inl new ↦ (
              p,
              snapshot,
              todo,
              record {
                closing = mark-Closing p snapshot todo u.closing new;
                copied =
                    mark-Copied L offset (threads n) p i line has_set s.world w u.closing.inv.valid
                      bound (eq_at (not p) new) u.copied;
                old_lists = relist p u.old_lists;
              },
            )
            | inr (old, alone) ↦ (
              p,
              snapshot,
              line ∷ todo,
              record {
                closing = late_mark-Closing p snapshot todo u.closing old alone;
                copied =
                    late_mark-Copied L offset (threads n) p i line has_set s.world w alone
                      (eq_at p old) u.copied;
                old_lists = relist p u.old_lists;
              },
            )
          ]

    mark-InPhase : (ph : Phase) → InPhase L offset n s h ph → InPhase L offset n marked h ph
    mark-InPhase resting o = mark-Open o
    mark-InPhase waiting (p, snapshot, todo, u) = mark-Waiting p snapshot todo u
    mark-InPhase (logging ts) (p, snapshot, c, all) = (
      p,
      snapshot,
      mark-Closing p snapshot (lines_of ts) c
          (passed-parity L offset n s v.protocol_holds i e r here all ∙ c.parity),
      all,
    )
    mark-InPhase (replaying ids) (p, snapshot, u, rest) = (
      p,
      snapshot,
      mark-Updating p snapshot u,
      subst (λ x. ToReplay L offset n snapshot ids w.nvm x) (sym (same_logs p snapshot u))
          (subst (λ m. ToReplay L offset n snapshot ids m s.world.logs) (sym effect.same_nvm) rest),
    )
    mark-InPhase (clearing ids) (p, snapshot, u, rest) = (
      p,
      snapshot,
      mark-Updating p snapshot u,
      subst (λ x. ToClear L offset n snapshot ids w.nvm x) (sym (same_logs p snapshot u))
          (subst (λ m. ToClear L offset n snapshot ids m s.world.logs) (sym effect.same_nvm) rest),
    )

    pub mark_next-Simulates : Simulates L offset n marked h
    mark_next-Simulates = record {
      protocol_holds = v.protocol_holds;
      bounded = λ j f m d g q.
          ground (arith, v.bounded i first num_bits done flag act, v.bounded j f m d g, ==_iff i j);
      current = λ x b. v.current x b ∙ sym (ap (λ m. m (line_addr x)) effect.same_dram);
      in_phase = mark-InPhase s.phase v.in_phase;
    }
