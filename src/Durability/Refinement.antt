-- ===== src/Durability/Refinement.antt =====
-- The running system and the heaps that it promises: what a crash leaves of the stores of a run.
use escort.Prelude.{ℕ, ◌<◌, ◌≡◌, refl, sym, ap, ◌∙◌, subst, none, some, List, [], arith}
use escort.Address.{num_lines, line_addr}
use escort.RedoLog.{RedoLogs}
use escort.Epoch.{epoch}
use escort.Snapshot.{nvm_addr, log_ids}
use escort.Snapshot.Update.{update_stores}
use escort.Checkpoint.{nvm_heap_update_unit}
use escort.Plog.{Cacheline, Memory}
use escort.World.{World}
use escort.EpochProtocol.Invariant.{Inv, idle-Inv}
use escort.EpochHeap.{Store, heap_after, Heaps}
use escort.Durability.{
  Run, Step, Reach, IsInitial, start, later, protocol, begin_mark, mark_next, end_mark, write,
  advance, begin_log, visit, clear, begin_update, replay_log, begin_clear, clear_log, end_round,
  resting, waiting, logging, replaying, clearing, Phase, threads,
}
use escort.Durability.Invariant.{cur, Simulates, InPhase}
use escort.Durability.Writes.{write-Simulates}
use escort.Durability.MarkSteps.{mark_next-Simulates}
use escort.Durability.Steps.{protocol-Simulates, begin_mark-Simulates, end_mark-Simulates}
use escort.Durability.Phases.{
  advance-Simulates, begin_log-Simulates, visit-Simulates, clear-Simulates,
}
use escort.Durability.Replaying.{begin_update-Simulates, replay_log-Simulates}
use escort.Durability.History.{
  durable_stores, heap_of, stores_step, stores_of, first_heap, Recorded, advance-Recorded,
  begin_update-Recorded, rephased-Recorded, write-Recorded,
}
use escort.Durability.Clearing.{begin_clear-Simulates, clear_log-Simulates, end_round-Simulates}

module _ (L : RedoLogs) (offset n : ℕ) where
  open L use {State}

  init-Simulates :
      (s : Run State)
      → IsInitial L offset n s
      → Simulates L offset n s (record {
        current = heap_of L offset n s;
        closing = none;
        durable = heap_of L offset n s;
      })
  init-Simulates s v = record {
    protocol_holds =
        subst (Inv n) (sym v.protocol_starts) (idle-Inv n s.sys.global_epoch v.epoch_started);
    bounded = λ i f m d g q. absurd (ground (arith, v.all_free i));
    current = λ l b. refl;
    in_phase = subst (InPhase L offset n s _) (sym v.rests) (record {
      todo = [];
      boundary = record {
        valid = v.logs_valid;
        idle = λ l. v.unmarked _ l;
        empty = λ k m. v.logs_empty k;
        clean = λ l b c. v.heaps_agree l b;
        planned = λ l b. absurd (ground (arith, v.unmarked (cur s.sys) l));
      };
      durable = v.heaps_agree;
      not_closing = refl;
      passed = λ i b. ap (λ t. t.passed i) v.protocol_starts;
      lists = λ l b. absurd (ground (arith, v.unmarked (cur s.sys) l));
    });
  }

  -- A state after the stores `ws` to the heap `first`.
  abbrev pub Promised : (ℕ → Cacheline) → List Store → Run State → Type 0
  Promised first ws s =
      (h : Heaps) × Recorded first ws (epoch s.sys.global_epoch) s.phase h
      × Simulates L offset n s h

  module _ (first : ℕ → Cacheline) (ws : List Store) where
    -- A step between two phases of which a crash leaves the same epochs.
    rephased :
        (s : Run State) {t : Run State} (h : Heaps)
        → epoch t.sys.global_epoch ≡ epoch s.sys.global_epoch
        → durable_stores t.phase (epoch s.sys.global_epoch) ws
          ≡ durable_stores s.phase (epoch s.sys.global_epoch) ws
        → Recorded first ws (epoch s.sys.global_epoch) s.phase h
        → Simulates L offset n t h
        → Promised first ws t
    rephased s {t} h same bound r u = (
      h,
      rephased-Recorded first ws (epoch s.sys.global_epoch) h (epoch t.sys.global_epoch) s.phase
          t.phase same bound r,
      u,
    )

    Step-Promised :
        {s t : Run State} (st : Step L offset n s t)
        → Promised first ws s
        → Promised first (stores_step L offset n st ws) t
    Step-Promised {s} (protocol {t} st same stays) (h, r, v) =
        rephased s h (ap epoch same) refl r (protocol-Simulates L offset n s h v t st same stays)
    Step-Promised {s} (begin_mark i e first m b here idle fits) (h, r, v) =
        (h, r, begin_mark-Simulates L offset n s h v i first m idle fits)
    Step-Promised {s} (mark_next {w} i e first m done flag has_set b here act more ordered eq)
          (h, r, v) =
        (
          h,
          r,
          mark_next-Simulates L offset n s h v i e b here first m done flag has_set w act more
              ordered eq,
        )
    Step-Promised {s} (end_mark i e first m flag b here act) (h, r, v) =
        (h, r, end_mark-Simulates L offset n s h v i e first m flag b here act)
    Step-Promised {s} (write i e l val b here bound marked ordered) (h, r, v) =
        let (h', wrote, now, u) =
          write-Simulates L offset n s l val bound h v i e b here marked ordered in
        (h', write-Recorded L offset n s l val bound first ws e s.phase h h' wrote now r, u)
    Step-Promised {s} (advance {t} now st rises) (h, r, v) = (
      record h { closing = some h.current },
      subst (λ g. Recorded first ws g waiting (record h { closing = some h.current })) (sym rises)
          (advance-Recorded first ws (epoch s.sys.global_epoch) h
            (subst (λ ph. Recorded first ws (epoch s.sys.global_epoch) ph h) now r)),
      advance-Simulates L offset n s h v t now st rises,
    )
    Step-Promised {s} (begin_log e now all same) (h, r, v) =
        rephased s h same (ap (λ ph. durable_stores ph (epoch s.sys.global_epoch) ws) (sym now)) r
          (begin_log-Simulates L offset n s h v e all same now)
    Step-Promised {s} (visit {w} {rest} l now bound eq) (h, r, v) =
        rephased s h refl (ap (λ ph. durable_stores ph (epoch s.sys.global_epoch) ws) (sym now)) r
          (visit-Simulates L offset n s h v rest w l now bound eq)
    Step-Promised {s} (clear {rest} i now) (h, r, v) =
        rephased s h refl (ap (λ ph. durable_stores ph (epoch s.sys.global_epoch) ws) (sym now)) r
          (clear-Simulates L offset n s h v rest i now)
    Step-Promised {s} (begin_update e now same) (h, r, v) =
        let (ended, q, u) = begin_update-Simulates L offset n s h v e now same in
        (
          record h { closing = none; durable = ended },
          subst
              (λ g.
                Recorded first ws g (replaying (log_ids (threads n)))
                  (record h { closing = none; durable = ended }))
              (sym same)
              (begin_update-Recorded first ws (epoch s.sys.global_epoch) h ended []
                (log_ids (threads n)) q
                (subst (λ ph. Recorded first ws (epoch s.sys.global_epoch) ph h) now r)),
          u,
        )
    Step-Promised {s} (replay_log {rest} k now) (h, r, v) =
        rephased s h refl (ap (λ ph. durable_stores ph (epoch s.sys.global_epoch) ws) (sym now)) r
          (replay_log-Simulates L offset n s h v k rest now)
    Step-Promised {s} (begin_clear now) (h, r, v) =
        rephased s h refl (ap (λ ph. durable_stores ph (epoch s.sys.global_epoch) ws) (sym now)) r
          (begin_clear-Simulates L offset n s h v now)
    Step-Promised {s} (clear_log {rest} k now) (h, r, v) =
        rephased s h refl (ap (λ ph. durable_stores ph (epoch s.sys.global_epoch) ws) (sym now)) r
          (clear_log-Simulates L offset n s h v k rest now)
    Step-Promised {s} (end_round now) (h, r, v) =
        rephased s h refl (ap (λ ph. durable_stores ph (epoch s.sys.global_epoch) ws) (sym now)) r
          (end_round-Simulates L offset n s h v now)

  Reach-Promised :
      {s : Run State} (r : Reach L offset n s)
      → Promised (first_heap L offset n r) (stores_of L offset n r) s
  Reach-Promised (start {s} v) = (
    record { current = heap_of L offset n s; closing = none; durable = heap_of L offset n s },
    record {
      recent = tt;
      current = λ l. refl;
      closing = λ ended q. cc;
      durable = λ l.
          ap
            (λ ph.
              heap_after (heap_of L offset n s) (durable_stores ph (epoch s.sys.global_epoch) []) l)
            (sym v.rests);
    },
    init-Simulates s v,
  )
  Reach-Promised (later r st) =
      Step-Promised (first_heap L offset n r) (stores_of L offset n r) st (Reach-Promised r)

  -- What has to be in NVM after a crash in state `s`: where the update of NVM had begun, what it leaves
  -- when it is begun again, and NVM as it is in all other phases.
  abbrev pub recovered_in : World State → Phase → Memory
  recovered_in w resting = w.nvm
  recovered_in w waiting = w.nvm
  recovered_in w (logging ts) = w.nvm
  recovered_in w (replaying ids) = (nvm_heap_update_unit L offset (threads n) w).nvm
  recovered_in w (clearing ids) = (nvm_heap_update_unit L offset (threads n) w).nvm

  abbrev pub recovered : Run State → Memory
  recovered s = recovered_in s.world s.phase

  recovered-durable :
      (s : Run State) (h : Heaps) (ph : Phase)
      → InPhase L offset n s h ph
      → (l : ℕ) → l < num_lines
      → recovered_in s.world ph (nvm_addr offset l) ≡ h.durable l
  recovered-durable s h resting o l b = o.durable l b
  recovered-durable s h waiting (p, snapshot, todo, w) l b = w.closing.durable l b
  recovered-durable s h (logging ts) (p, snapshot, c, all) l b = c.durable l b
  recovered-durable s h (replaying ids) (p, snapshot, u, r) l b =
      update_stores L offset snapshot l b (threads n) p s.world u.inv ∙ u.durable l b
  recovered-durable s h (clearing ids) (p, snapshot, u, r) l b =
      update_stores L offset snapshot l b (threads n) p s.world u.inv ∙ u.durable l b

  -- For every run of a system of n threads, in whatever order they take their steps, as long as programs
  -- see to it that an operation of the epoch that ends uses no line that the next one has marked: DRAM is,
  -- line by line, the heap that the run has started from after all stores of the run, in their order. What
  -- a crash leaves, NVM as it is or, where the update of NVM has begun, what the update leaves when it is
  -- begun again, is that heap after exactly the stores by operations of epochs before that of the
  -- global word, and of one epoch less in the wait and while lines are logged.
  pub system_refines :
      (s : Run State) (r : Reach L offset n s) (l : ℕ)
      → l < num_lines
      → (s.world.dram (line_addr l)
          ≡ heap_after (first_heap L offset n r) (stores_of L offset n r) l)
        × (recovered s (nvm_addr offset l)
            ≡ heap_after
                (first_heap L offset n r)
                (durable_stores s.phase (epoch s.sys.global_epoch) (stores_of L offset n r))
                l)
  system_refines s r l b =
      let (h, p, v) = Reach-Promised r in
      (
        sym (v.current l b) ∙ p.current l,
        recovered-durable s h s.phase v.in_phase l b ∙ p.durable l,
      )
