-- ===== src/Durability/History.antt =====
-- The stores of a run of the system, and how the promised heaps come from them.
use escort.Prelude.{
  ℕ, ◌+◌, ◌-◌, ◌<◌, ◌≡◌, ◌⊎◌, sym, ap, ◌∙◌, subst, inl, inr, none, some, List, [], ◌∷◌, All, update,
  arith,
}
use escort.Address.{num_lines, line_addr}
use escort.Epoch.{epoch}
use escort.Plog.{Cacheline}
use escort.RedoLog.{RedoLogs}
use escort.EpochHeap.{Store, heap_after, stores_before, stores_before-All, later_bound, Heaps}
use escort.Durability.{
  Run, Step, Reach, start, later, protocol, begin_mark, mark_next, end_mark, write, advance,
  begin_log, visit, clear, begin_update, replay_log, begin_clear, clear_log, end_round, Phase,
  resting, waiting, logging, replaying, clearing, Task,
}
use escort.Durability.Writes.{Wrote}

-- The stores by operations of the epochs that a crash in a phase leaves, where the word of the epoch has
-- counter `g`: those before epoch `g`, and one epoch less until the update of NVM begins.
abbrev pub durable_stores : Phase → ℕ → List Store → List Store
durable_stores resting g ws = stores_before g ws
durable_stores waiting g ws = stores_before (g - 1) ws
durable_stores (logging ts) g ws = stores_before (g - 1) ws
durable_stores (replaying ids) g ws = stores_before g ws
durable_stores (clearing ids) g ws = stores_before g ws

module _ (L : RedoLogs) (offset n : ℕ) where
  open L use {State}

  abbrev pub heap_of : Run State → ℕ → Cacheline
  heap_of s l = s.world.dram (line_addr l)

  -- The store that a step makes, onto those before it.
  abbrev pub stores_step : {s t : Run State} → Step L offset n s t → List Store → List Store
  stores_step (protocol st same stays) ws = ws
  stores_step (begin_mark i e first m b here idle fits) ws = ws
  stores_step (mark_next i e first m done flag has_set b here act more ordered eq) ws = ws
  stores_step (end_mark i e first m flag b here act) ws = ws
  stores_step (write i e l val b here bound marked ordered) ws =
      record { counter = epoch e; line = l; val = val } ∷ ws
  stores_step (advance now st rises) ws = ws
  stores_step (begin_log e now all same) ws = ws
  stores_step (visit l now bound eq) ws = ws
  stores_step (clear i now) ws = ws
  stores_step (begin_update e now same) ws = ws
  stores_step (replay_log k now) ws = ws
  stores_step (begin_clear now) ws = ws
  stores_step (clear_log k now) ws = ws
  stores_step (end_round now) ws = ws

  -- The stores of a run, the last one first, and the heap that it starts from.
  abbrev pub stores_of : {s : Run State} → Reach L offset n s → List Store
  stores_of (start v) = []
  stores_of (later r st) = stores_step st (stores_of r)

  abbrev pub first_heap : {s : Run State} → Reach L offset n s → ℕ → Cacheline
  first_heap (start {s} v) = heap_of s
  first_heap (later r st) = first_heap r

-- The promised heaps are those that the stores leave, in a phase with counter `g`.
pub record Recorded (first : ℕ → Cacheline) (ws : List Store) (g : ℕ) (ph : Phase) (h : Heaps)
    : Type 0 where
  pub recent : All (λ w. w.counter < g + 1) ws
  pub current : (l : ℕ) → h.current l ≡ heap_after first ws l
  pub closing :
      (ended : ℕ → Cacheline)
      → h.closing ≡ some ended
      → (l : ℕ) → ended l ≡ heap_after first (stores_before g ws) l
  pub durable : (l : ℕ) → h.durable l ≡ heap_after first (durable_stores ph g ws) l

module _ (first : ℕ → Cacheline) (ws : List Store) (g : ℕ) (h : Heaps) where
  -- The epoch ends.
  pub advance-Recorded :
      Recorded first ws g resting h
      → Recorded first ws (g + 1) waiting (record h { closing = some h.current })
  advance-Recorded r = record {
    recent = later_bound (g + 1) (g + 1 + 1) ws (omega arith) r.recent;
    current = r.current;
    closing = λ ended q l.
        ap (λ f. f l) (same_heap q)
        ∙ r.current l
        ∙ ap (λ xs. heap_after first xs l) (sym (stores_before-All (g + 1) ws r.recent));
    durable = λ l. r.durable l ∙ ap (λ k. heap_after first (stores_before k ws) l) before;
  }
    where
      before : g ≡ g + 1 - 1
      before = omega arith

      same_heap : {ended : ℕ → Cacheline} → some h.current ≡ some ended → ended ≡ h.current
      same_heap q = cc

  -- And is durable.
  pub begin_update-Recorded :
      (ended : ℕ → Cacheline) (ts : List Task) (ids : List ℕ)
      → h.closing ≡ some ended
      → Recorded first ws g (logging ts) h
      → Recorded first ws g (replaying ids) (record h { closing = none; durable = ended })
  begin_update-Recorded ended ts ids q r = record {
    recent = r.recent;
    current = r.current;
    closing = λ x p. cc;
    durable = r.closing ended q;
  }

  pub rephased-Recorded :
      (g' : ℕ) (ph ph' : Phase)
      → g' ≡ g
      → durable_stores ph' g ws ≡ durable_stores ph g ws
      → Recorded first ws g ph h
      → Recorded first ws g' ph' h
  rephased-Recorded g' ph ph' same bound r =
      subst (λ k. Recorded first ws k ph' h) (sym same)
        (record {
          recent = r.recent;
          current = r.current;
          closing = r.closing;
          durable = λ l. r.durable l ∙ ap (λ xs. heap_after first xs l) (sym bound);
        })

-- A store by an operation of epoch `g`, or before, is of none of the durable epochs.
not_durable :
    (ph : Phase) (g : ℕ) (w : Store) (ws : List Store)
    → (w.counter ≡ g) ⊎ ((w.counter + 1 ≡ g) × (ph ≡ waiting))
    → durable_stores ph g (w ∷ ws) ≡ durable_stores ph g ws
not_durable resting g w ws h = ground (arith, h)
not_durable waiting g w ws h = ground (arith, h)
not_durable (logging ts) g w ws h = ground (arith, h)
not_durable (replaying ids) g w ws h = ground (arith, h)
not_durable (clearing ids) g w ws h = ground (arith, h)

module _ (L : RedoLogs) (offset n : ℕ) (s : Run L.State) (l : ℕ) (val : Cacheline)
    (bound : l < num_lines) (first : ℕ → Cacheline) (ws : List Store) (e : ℕ) (ph : Phase)
    (h h' : Heaps) where
  abbrev g : ℕ
  g = epoch s.sys.global_epoch

  abbrev w : Store
  w = record { counter = epoch e; line = l; val = val }

  stored_current :
      h'.current ≡ update h.current l val
      → ((x : ℕ) → h.current x ≡ heap_after first ws x)
      → (x : ℕ) → h'.current x ≡ heap_after first (w ∷ ws) x
  stored_current c r x = ap (λ f. f x) c ∙ ground (arith, r x)

  pub write-Recorded :
      Wrote L offset n s l val bound e ph h h'
      → h'.current ≡ update h.current l val
      → Recorded first ws g ph h
      → Recorded first (w ∷ ws) g ph h'
  write-Recorded (inl (same, closes, keeps)) c r = record {
    recent = (omega (arith, same), r.recent);
    current = stored_current c r.current;
    closing = λ ended q x.
        r.closing ended (sym closes ∙ q) x
        ∙ ap (λ xs. heap_after first xs x) (sym (ground (arith, same)));
    durable = λ x.
        ap (λ f. f x) keeps
        ∙ r.durable x
        ∙ ap (λ xs. heap_after first xs x) (sym (not_durable ph g w ws (inl same)));
  }
  write-Recorded (inr (before, in_wait, keeps, old, was, now)) c r = record {
    recent = (omega (arith, before), r.recent);
    current = stored_current c r.current;
    closing = λ ended q x.
        ap (λ f. f x) (same_heap (sym q ∙ now))
        ∙ late_store x (r.closing old was x)
        ∙ ap (λ xs. heap_after first xs x) (sym (earlier));
    durable = λ x.
        ap (λ f. f x) keeps
        ∙ r.durable x
        ∙ ap (λ xs. heap_after first xs x) (sym (not_durable ph g w ws (inr (before, in_wait))));
  }
    where
      same_heap : {a b : ℕ → Cacheline} → some a ≡ some b → a ≡ b
      same_heap q = cc

      earlier : stores_before g (w ∷ ws) ≡ w ∷ stores_before g ws
      earlier = ground (arith, before)

      late_store :
          (x : ℕ)
          → old x ≡ heap_after first (stores_before g ws) x
          → update old l val x ≡ heap_after first (w ∷ stores_before g ws) x
      late_store x q = ground (arith, q)
