-- ===== src/Durability/Steps.antt =====
-- The other steps: those that leave the heaps alone, and those from one phase to the next.
use escort.Prelude.{
  ℕ, ◌+◌, ◌≤◌, ◌<◌, ◌≡◌, refl, sym, ap, ◌∙◌, subst, ◌⊎◌, Bool, true, false, not, List, [], update,
  arith,
}
use escort.Address.{num_lines, line_addr}
use escort.Bitmap.{is_set}
use escort.Plog.{Cacheline}
use escort.World.{World, curr_of}
use escort.RedoLog.{RedoLogs}
use escort.Snapshot
use escort.Snapshot.{log_ids}
use escort.Snapshot.Update.{Boundary}
use escort.EpochProtocol
use escort.EpochProtocol.{System, inside}
use escort.EpochProtocol.Invariant.{Inv, Step-Inv}
use escort.EpochHeap.{Heaps}
use escort.Durability.{
  threads, free, marking, Phase, resting, waiting, logging, replaying, clearing, Run, listed,
  with_sys,
}
use escort.Durability.Lines.{lines_of}
use escort.Durability.Late.{grown-Copied}
use escort.Durability.Listed.{Listed-protocol, Listed-begin_mark}
use escort.Durability.Regions.{Listed-end_mark}
use escort.Durability.Frame.{SameHeaps, frame-Inv, frame-Boundary, passed_kept}
use escort.Durability.Invariant.{
  cur, AllPassed, AllListed, Open, Closing, Updating, ToReplay, ToClear, IsDurable, InPhase,
  Simulates,
}

module _ (L : RedoLogs) (offset n : ℕ) where
  open L use {State}

  -- A step to `t` that leaves heaps, bitmaps, logs and the global epoch as they are.
  module _ (s t : Run State) (h : Heaps)
      (f : (p : Bool) → SameHeaps L offset (threads n) p s.world t.world)
      (same : t.sys.global_epoch ≡ s.sys.global_epoch) where
    same_cur : cur t.sys ≡ cur s.sys
    same_cur = ap curr_of same

    frame-IsDurable : IsDurable L offset n s.world.nvm h → IsDurable L offset n t.world.nvm h
    frame-IsDurable d l b = ap (λ m. m (Snapshot.nvm_addr offset l)) (f true).same_nvm ∙ d l b

    frame-Open :
        AllPassed n t.sys
        → AllListed L offset n (cur s.sys) t
        → Open L offset n s h
        → Open L offset n t h
    frame-Open all lists o = record {
      todo = o.todo;
      boundary =
          subst (λ c. Boundary L offset (threads n) c t.world o.todo) (sym same_cur)
            (frame-Boundary L offset (threads n) (cur s.sys) s.world t.world (f (cur s.sys)) o.todo
              o.boundary);
      not_closing = o.not_closing;
      passed = all;
      lists = subst (λ c. AllListed L offset n c t) (sym same_cur) lists;
      durable = frame-IsDurable o.durable;
    }

    pub frame-Closing :
        (p : Bool) (snapshot : ℕ → Cacheline) (todo : List ℕ)
        → AllListed L offset n (not p) t
        → Closing L offset n p snapshot todo s h
        → Closing L offset n p snapshot todo t h
    frame-Closing p snapshot todo lists c = record {
      parity = same_cur ∙ c.parity;
      inv = frame-Inv L offset (threads n) p s.world t.world (f p) snapshot todo c.inv;
      is_closing = c.is_closing;
      lists = lists;
      cover = c.cover;
      covers = λ l b. c.covers l (ap (λ m. is_set (m (not p)) l) (sym (f p).same_bits) ∙ b);
      durable = frame-IsDurable c.durable;
    }

    frame-Updating :
        (p : Bool) (snapshot : ℕ → Cacheline)
        → AllPassed n t.sys
        → AllListed L offset n (not p) t
        → Updating L offset n p snapshot s h
        → Updating L offset n p snapshot t h
    frame-Updating p snapshot all lists u = record {
      parity = same_cur ∙ u.parity;
      inv = frame-Inv L offset (threads n) p s.world t.world (f p) snapshot [] u.inv;
      not_closing = u.not_closing;
      passed = all;
      lists = lists;
      cover = u.cover;
      covers = λ l b. u.covers l (ap (λ m. is_set (m (not p)) l) (sym (f p).same_bits) ∙ b);
      durable = u.durable;
    }

    pub frame-InPhase :
        ((i : ℕ) → s.sys.passed i ≡ true → t.sys.passed i ≡ true)
        → ((c : Bool) → AllListed L offset n c s → AllListed L offset n c t)
        → (ph : Phase) → InPhase L offset n s h ph
        → InPhase L offset n t h ph
    frame-InPhase all lists resting o =
        frame-Open (λ i b. all i (o.passed i b)) (lists (cur s.sys) o.lists) o
    frame-InPhase all lists waiting (p, snapshot, todo, w) = (
      p,
      snapshot,
      todo,
      record {
        closing = frame-Closing p snapshot todo (lists (not p) w.closing.lists) w.closing;
        copied =
            grown-Copied L offset (threads n) p s.world t.world (f p).same_logs
              (λ x b. ap (λ m. is_set (m (not p)) x) (f p).same_bits ∙ b) w.copied;
        old_lists = lists p w.old_lists;
      },
    )
    frame-InPhase all lists (logging ts) (p, snapshot, c, a) = (
      p,
      snapshot,
      frame-Closing p snapshot (lines_of ts) (lists (not p) c.lists) c,
      λ i b. all i (a i b),
    )
    frame-InPhase all lists (replaying ids) (p, snapshot, u, rest) = (
      p,
      snapshot,
      frame-Updating p snapshot (λ i b. all i (u.passed i b)) (lists (not p) u.lists) u,
      subst (λ x. ToReplay L offset n snapshot ids t.world.nvm x) (sym (f p).same_logs)
          (subst (λ m. ToReplay L offset n snapshot ids m s.world.logs) (sym (f p).same_nvm) rest),
    )
    frame-InPhase all lists (clearing ids) (p, snapshot, u, rest) = (
      p,
      snapshot,
      frame-Updating p snapshot (λ i b. all i (u.passed i b)) (lists (not p) u.lists) u,
      subst (λ x. ToClear L offset n snapshot ids t.world.nvm x) (sym (f p).same_logs)
          (subst (λ m. ToClear L offset n snapshot ids m s.world.logs) (sym (f p).same_nvm) rest),
    )

    pub frame-Simulates :
        t.phase ≡ s.phase
        → Inv n t.sys
        → ((i first num_bits done : ℕ) (flag : Bool)
            → t.activity i ≡ marking first num_bits done flag
            → first + num_bits ≤ num_lines)
        → ((i : ℕ) → s.sys.passed i ≡ true → t.sys.passed i ≡ true)
        → ((c : Bool) → AllListed L offset n c s → AllListed L offset n c t)
        → Simulates L offset n s h
        → Simulates L offset n t h
    frame-Simulates ph inv bounded all lists v = record {
      protocol_holds = inv;
      bounded = bounded;
      current = λ l b. v.current l b ∙ sym (ap (λ m. m (line_addr l)) (f true).same_dram);
      in_phase =
          subst (InPhase L offset n t h) (sym ph) (frame-InPhase all lists s.phase v.in_phase);
    }

  pub untouched :
      {w w' : World State}
      → w'.dram ≡ w.dram
      → w'.nvm ≡ w.nvm
      → w'.bitmap ≡ w.bitmap
      → w'.logs ≡ w.logs
      → (p : Bool) → SameHeaps L offset (threads n) p w w'
  untouched a b c d p = record { same_dram = a; same_nvm = b; same_bits = c; same_logs = d }

  module _ (s : Run State) (h : Heaps) (v : Simulates L offset n s h) where
    pub protocol-Simulates :
        (t : System)
        → EpochProtocol.Step n s.sys t
        → t.global_epoch ≡ s.sys.global_epoch
        → ((i : ℕ) → (t.pc i ≡ s.sys.pc i) ⊎ (s.activity i ≡ free))
        → Simulates L offset n (with_sys L offset n s t s.phase) h
    protocol-Simulates t st same stays =
        frame-Simulates s (with_sys L offset n s t s.phase) h (untouched refl refl refl refl) same
          refl (Step-Inv st v.protocol_holds) v.bounded (passed_kept st same)
          (λ c.
            Listed-protocol n c s.world.bitmap s.world.bitmap s.world.addrlist s.world.addrlist
              s.sys.pc t.pc s.activity (λ l b. b) (λ i. refl) stays)
          v

    pub begin_mark-Simulates :
        (i first num_bits : ℕ)
        → s.activity i ≡ free
        → first + num_bits ≤ num_lines
        → Simulates L offset n
            (record s { activity = update s.activity i (marking first num_bits 0 false) })
            h
    begin_mark-Simulates i first num_bits idle fits =
        frame-Simulates s
          (record s { activity = update s.activity i (marking first num_bits 0 false) }) h
          (untouched refl refl refl refl) refl refl v.protocol_holds
          (λ j f m d g q. ground (arith, v.bounded j f m d g)) (λ j p. p)
          (λ c.
            Listed-begin_mark n c s.world.bitmap s.world.addrlist s.sys.pc s.activity i
              (marking first num_bits 0 false) idle)
          v

    pub end_mark-Simulates :
        (i e first num_bits : ℕ) (flag : Bool)
        → i < n
        → s.sys.pc i ≡ inside e
        → s.activity i ≡ marking first num_bits num_bits flag
        → Simulates L offset n
            (record s {
              world = listed L offset n i (curr_of e) (line_addr first, num_bits) flag s.world;
              activity = update s.activity i free;
            })
            h
    end_mark-Simulates i e first num_bits true r here act =
        frame-Simulates s _ h (untouched refl refl refl refl) refl refl v.protocol_holds
          (λ j f m d g q. ground (arith, v.bounded j f m d g)) (λ j p. p)
          (λ c.
            Listed-end_mark n c s.world.bitmap s.world.addrlist s.sys.pc s.activity i e first
              num_bits true r here act)
          v
    end_mark-Simulates i e first num_bits false r here act =
        frame-Simulates s _ h (untouched refl refl refl refl) refl refl v.protocol_holds
          (λ j f m d g q. ground (arith, v.bounded j f m d g)) (λ j p. p)
          (λ c.
            Listed-end_mark n c s.world.bitmap s.world.addrlist s.sys.pc s.activity i e first
              num_bits false r here act)
          v
