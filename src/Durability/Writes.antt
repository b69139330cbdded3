-- ===== src/Durability/Writes.antt =====
-- A write of a program: of the current epoch in every phase, or, in the wait, of the one before.
use escort.Prelude.{
  ℕ, ◌+◌, ◌<◌, ◌≡◌, ◌⊎◌, refl, sym, ap, ◌∙◌, inl, inr, Bool, true, not, some, List, update, ==_iff,
  arith,
}
use escort.Address.{num_lines, line_addr}
use escort.Bitmap.{is_set}
use escort.Epoch.{epoch}
use escort.Plog.{Cacheline}
use escort.World.{curr_of}
use escort.RedoLog.{RedoLogs}
use escort.Snapshot
use escort.Snapshot.Steps
use escort.EpochProtocol.{inside}
use escort.EpochHeap.{Heaps}
use escort.Durability.{threads, Phase, resting, waiting, logging, replaying, clearing, Run, Ordered}
use escort.Durability.Lines.{lines_of}
use escort.Durability.Late.{late_write-Inv}
use escort.Durability.Resting.{write-Boundary}
use escort.Durability.Invariant.{
  cur, AllPassed, Open, Closing, Waiting, Updating, InPhase, Simulates, passed-parity,
  waiting_cases,
}

module _ (L : RedoLogs) (offset n : ℕ) (s : Run L.State) (l : ℕ) (val : Cacheline)
    (bound : l < num_lines) where
  open L use {State}

  abbrev pub written : Run State
  written = record s { world = record s.world { dram = update s.world.dram (line_addr l) val } }

  -- The heap of the current epoch, and that of the one that ends.
  abbrev now : Heaps → Heaps
  now h = record h { current = update h.current l val }

  write-Open :
      (h : Heaps)
      → is_set (s.world.bitmap (cur s.sys)) l ≡ true
      → Open L offset n s h
      → Open L offset n written (now h)
  write-Open h marked o = record {
    todo = o.todo;
    boundary =
        write-Boundary L offset (threads n) (cur s.sys) s.world o.todo o.boundary l val bound
          marked;
    not_closing = o.not_closing;
    passed = o.passed;
    lists = o.lists;
    durable = o.durable;
  }

  write-Closing :
      (h : Heaps) (p : Bool) (snapshot : ℕ → Cacheline) (todo : List ℕ)
      → is_set (s.world.bitmap (not p)) l ≡ true
      → Closing L offset n p snapshot todo s h
      → Closing L offset n p snapshot todo written (now h)
  write-Closing h p snapshot todo marked c = record {
    parity = c.parity;
    inv = Snapshot.Steps.Step-Inv L offset (threads n) p (Snapshot.write l val bound marked) c.inv;
    is_closing = c.is_closing;
    lists = c.lists;
    cover = c.cover;
    covers = c.covers;
    durable = c.durable;
  }

  write-Updating :
      (h : Heaps) (p : Bool) (snapshot : ℕ → Cacheline)
      → is_set (s.world.bitmap (not p)) l ≡ true
      → Updating L offset n p snapshot s h
      → Updating L offset n p snapshot written (now h)
  write-Updating h p snapshot marked u = record {
    parity = u.parity;
    inv = Snapshot.Steps.Step-Inv L offset (threads n) p (Snapshot.write l val bound marked) u.inv;
    not_closing = u.not_closing;
    passed = u.passed;
    lists = u.lists;
    cover = u.cover;
    covers = u.covers;
    durable = u.durable;
  }

  -- What a write of an operation of epoch `e` does to the other two heaps: nothing, or, where that epoch
  -- ends, to the one that is closing what it does to the current one.
  abbrev pub Wrote : ℕ → Phase → Heaps → Heaps → Type 0
  Wrote e ph h h' =
      ((epoch e ≡ epoch s.sys.global_epoch) × (h'.closing ≡ h.closing) × (h'.durable ≡ h.durable))
      ⊎ ((epoch e + 1 ≡ epoch s.sys.global_epoch)
          × (ph ≡ waiting)
          × (h'.durable ≡ h.durable)
          × (ended : ℕ → Cacheline) × (h.closing ≡ some ended)
          × (h'.closing ≡ some (update ended l val)))

  module _ (h : Heaps) (v : Simulates L offset n s h) (i e : ℕ) (r : i < n)
      (here : s.sys.pc i ≡ inside e) (marked : is_set (s.world.bitmap (curr_of e)) l ≡ true)
      (ordered : Ordered L offset n s e l) where
    abbrev marked_in : (c : Bool) → curr_of e ≡ c → is_set (s.world.bitmap c) l ≡ true
    marked_in c same = ap (λ k. is_set (s.world.bitmap k) l) (sym same) ∙ marked

    write-waiting :
        (p : Bool) (snapshot : ℕ → Cacheline) (todo : List ℕ)
        → Waiting L offset n p snapshot todo s h
        → (h' : Heaps) × Wrote e waiting h h'
          × InPhase L offset n written h' waiting
          × (h'.current ≡ update h.current l val)
    write-waiting p snapshot todo w =
        elim (waiting_cases L offset n s v.protocol_holds i e r here p l w.closing.parity ordered) [
          | inl (same, new) ↦ (
            now h,
            inl (same, refl, refl),
            (
              p,
              snapshot,
              todo,
              record {
                closing = write-Closing h p snapshot todo (marked_in (not p) new) w.closing;
                copied = w.copied;
                old_lists = w.old_lists;
              },
            ),
            refl,
          )
          | inr (before, old, alone) ↦
              let c = w.closing in
              (
                record h {
                  current = update h.current l val;
                  closing = some (update snapshot l val);
                },
                inr (before, refl, refl, snapshot, c.is_closing, refl),
                (
                  p,
                  update snapshot l val,
                  todo,
                  record {
                    closing = record {
                      parity = c.parity;
                      inv =
                          late_write-Inv L offset (threads n) p c.inv l bound alone val
                            (marked_in p old) w.copied;
                      is_closing = refl;
                      lists = c.lists;
                      cover = c.cover;
                      covers = c.covers;
                      durable = c.durable;
                    };
                    copied = w.copied;
                    old_lists = w.old_lists;
                  },
                ),
                refl,
              )
        ]

    write-closed :
        (p : Bool) (snapshot : ℕ → Cacheline) (todo : List ℕ)
        → Closing L offset n p snapshot todo s h
        → AllPassed n s.sys
        → Closing L offset n p snapshot todo written (now h)
    write-closed p snapshot todo c all =
        write-Closing h p snapshot todo
          (marked_in (not p)
            (passed-parity L offset n s v.protocol_holds i e r here all ∙ c.parity))
          c

    written-Updating :
        (p : Bool) (snapshot : ℕ → Cacheline)
        → Updating L offset n p snapshot s h
        → Updating L offset n p snapshot written (now h)
    written-Updating p snapshot u =
        write-Updating h p snapshot
          (marked_in (not p)
            (passed-parity L offset n s v.protocol_holds i e r here u.passed ∙ u.parity))
          u

    pub write-InPhase :
        (ph : Phase)
        → InPhase L offset n s h ph
        → (h' : Heaps) × Wrote e ph h h'
          × InPhase L offset n written h' ph
          × (h'.current ≡ update h.current l val)
    write-InPhase resting o = (
      now h,
      inl (v.protocol_holds.waited i e here (o.passed i r), refl, refl),
      write-Open h
          (marked_in (cur s.sys) (passed-parity L offset n s v.protocol_holds i e r here o.passed))
          o,
      refl,
    )
    write-InPhase waiting (p, snapshot, todo, w) = write-waiting p snapshot todo w
    write-InPhase (logging ts) (p, snapshot, c, all) = (
      now h,
      inl (v.protocol_holds.waited i e here (all i r), refl, refl),
      (p, snapshot, write-closed p snapshot (lines_of ts) c all, all),
      refl,
    )
    write-InPhase (replaying ids) (p, snapshot, u, rest) = (
      now h,
      inl (v.protocol_holds.waited i e here (u.passed i r), refl, refl),
      (p, snapshot, written-Updating p snapshot u, rest),
      refl,
    )
    write-InPhase (clearing ids) (p, snapshot, u, rest) = (
      now h,
      inl (v.protocol_holds.waited i e here (u.passed i r), refl, refl),
      (p, snapshot, written-Updating p snapshot u, rest),
      refl,
    )

    pub write-Simulates :
        (h' : Heaps) × Wrote e s.phase h h'
        × (h'.current ≡ update h.current l val)
        × Simulates L offset n written h'
    write-Simulates =
        let (h', st, ph, cur') = write-InPhase s.phase v.in_phase in
        (
          h',
          st,
          cur',
          record {
            protocol_holds = v.protocol_holds;
            bounded = v.bounded;
            current = λ x b. ap (λ f. f x) cur' ∙ ground (arith, v.current x b, ==_iff l x);
            in_phase = ph;
          },
        )
