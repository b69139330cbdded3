-- ===== src/LineRace/ThreadSteps.antt =====
-- The steps of the user thread, `mark` of src/userthreadctx_t.cpp, and the invariant.
use escort.Prelude.{subst, ◌≡◌, refl, sym, ◌∙◌, ◌⊎◌, inl, inr, true, false, [], ◌∷◌, ◌++◌, arith}
use escort.Plog.{Cacheline}
use escort.LineRace.{
  Marking, testing_curr, testing_prev, clearing_prev, copying, pushing, setting_curr, writing,
  Logging, testing, reading, logging, clearing, replaying, replaying_thread, clearing_log,
  clearing_thread, ended, is_logging, Line,
}
use escort.LineRace.Invariant.{Kept, Place, Progress, Inv}

-- A step of the user thread.
record Moved (s t : Line) : Type 0 where
  same_nvm : t.nvm ≡ s.nvm
  same_log : t.log ≡ s.log
  same_logging : t.logging ≡ s.logging
  same_snapshot : t.snapshot ≡ s.snapshot
  kept : Kept s → Kept t
  cleared : s.prev ≡ true → (t.prev ≡ true) ⊎ Kept t
  stays_clear : s.prev ≡ false → t.prev ≡ false
  stays_unlogged : s.prev ≡ false → is_logging s.marking ≡ false → is_logging t.marking ≡ false
  same_thread_log : is_logging s.marking ≡ false → t.thread_log ≡ s.thread_log

Moved-Progress : (s t : Line) → Moved s t → (p : Logging) → Progress s p → Progress t p
Moved-Progress s t m testing h =
    ground (arith, m.kept, m.cleared, m.same_nvm, m.same_log, m.same_snapshot)
Moved-Progress s t m reading h = ground (arith, m.kept, m.cleared)
Moved-Progress s t m (logging value) h = ground (arith, m.kept, m.same_snapshot)
Moved-Progress s t m clearing h = ground (arith, m.kept, m.same_nvm, m.same_log, m.same_snapshot)
Moved-Progress s t m replaying h =
    (m.stays_clear h.0, ground (arith, h.1, m.kept, m.same_nvm, m.same_log, m.same_snapshot))
Moved-Progress s t m replaying_thread h =
    (m.stays_clear h.0, ground (arith, h.1, m.kept, m.same_nvm, m.same_snapshot))
Moved-Progress s t m clearing_log (c, l, n) =
    (m.stays_clear c, m.stays_unlogged c l, m.same_nvm ∙ n ∙ sym m.same_snapshot)
Moved-Progress s t m clearing_thread (c, l, n, e) =
    (m.stays_clear c, m.stays_unlogged c l, m.same_nvm ∙ n ∙ sym m.same_snapshot, m.same_log ∙ e)
Moved-Progress s t m ended (c, l, n, e, g) = (
  m.stays_clear c,
  m.stays_unlogged c l,
  m.same_nvm ∙ n ∙ sym m.same_snapshot,
  m.same_log ∙ e,
  m.same_thread_log l ∙ g,
)

module _ (s : Line) (v : Inv s) where
  pub at-Place : {m : Marking} → s.marking ≡ m → Place s m
  at-Place h = subst (Place s) h v.place

  at-Progress : {p : Logging} → s.logging ≡ p → Progress s p
  at-Progress h = subst (Progress s) h v.progress

  stays_known : (t : Line) → Moved s t → Progress t t.logging
  stays_known t m =
      subst (Progress t) (sym m.same_logging) (Moved-Progress s t m s.logging v.progress)

  -- The thread goes on without an access that changes the state.
  pub goes :
      (m : Marking)
      → is_logging s.marking ≡ is_logging m
      → Place (record s { marking = m }) m
      → Inv (record s { marking = m })
  goes m same p = record {
    unwritten = v.unwritten;
    unmarked = v.unmarked;
    unlogged = v.unlogged;
    logged = v.logged;
    place = p;
    progress =
        stays_known (record s { marking = m })
          (record {
            same_nvm = refl;
            same_log = refl;
            same_logging = refl;
            same_snapshot = refl;
            kept = λ k. ground (arith, k);
            cleared = inl;
            stays_clear = λ c. c;
            stays_unlogged = λ c l. cc;
            same_thread_log = λ l. refl;
          });
  }

  pub found_unlogged-Inv :
      s.marking ≡ testing_prev → s.prev ≡ true → Inv (record s { marking = clearing_prev })
  found_unlogged-Inv h b = record {
    unwritten = v.unwritten;
    unmarked = v.unmarked;
    unlogged = v.unlogged;
    logged = v.logged;
    place = (v.unmarked b, v.unlogged b);
    progress =
        stays_known (record s { marking = clearing_prev })
          (record {
            same_nvm = refl;
            same_log = refl;
            same_logging = refl;
            same_snapshot = refl;
            kept = λ k. inr refl;
            cleared = inl;
            stays_clear = λ c. c;
            stays_unlogged = λ c l. cc;
            same_thread_log = λ l. refl;
          });
  }

  pub clear_prev-Inv :
      s.marking ≡ clearing_prev → Inv (record s { prev = false; marking = copying })
  clear_prev-Inv h = record {
    unwritten = v.unwritten;
    unmarked = λ b. cc;
    unlogged = λ b. cc;
    logged = v.logged;
    place = ((at-Place h).0, refl, (at-Place h).1);
    progress =
        stays_known (record s { prev = false; marking = copying })
          (record {
            same_nvm = refl;
            same_log = refl;
            same_logging = refl;
            same_snapshot = refl;
            kept = λ k. inr refl;
            cleared = λ b. inr (inr refl);
            stays_clear = λ c. refl;
            stays_unlogged = λ c l. ground (arith, h);
            same_thread_log = λ l. refl;
          });
  }

  pub push-Inv :
      (old_val : Cacheline)
      → s.marking ≡ pushing old_val
      → Inv (record s { thread_log = s.thread_log ++ old_val ∷ []; marking = setting_curr })
  push-Inv old_val h =
      let (c, p, empty, old) = at-Place h in
      let one : s.thread_log ++ old_val ∷ [] ≡ s.snapshot ∷ [] = ground (arith, empty, old) in
      record {
        unwritten = v.unwritten;
        unmarked = v.unmarked;
        unlogged = λ b. cc;
        logged = inr one;
        place = (c, p);
        progress =
            stays_known
              (record s { thread_log = s.thread_log ++ old_val ∷ []; marking = setting_curr })
              (record {
                same_nvm = refl;
                same_log = refl;
                same_logging = refl;
                same_snapshot = refl;
                kept = λ k. inl one;
                cleared = inl;
                stays_clear = λ c. c;
                stays_unlogged = λ c l. refl;
                same_thread_log = λ l. ground (arith, h);
              });
      }

  pub set_curr-Inv : s.marking ≡ setting_curr → Inv (record s { curr = true; marking = writing })
  set_curr-Inv h = record {
    unwritten = λ c. cc;
    unmarked = λ b. ground (arith, at-Place h);
    unlogged = v.unlogged;
    logged = v.logged;
    place = refl;
    progress =
        stays_known (record s { curr = true; marking = writing })
          (record {
            same_nvm = refl;
            same_log = refl;
            same_logging = refl;
            same_snapshot = refl;
            kept = λ k. ground (arith, k, h);
            cleared = inl;
            stays_clear = λ c. c;
            stays_unlogged = λ c l. refl;
            same_thread_log = λ l. refl;
          });
  }

  pub write-Inv : (val : Cacheline) → s.marking ≡ writing → Inv (record s { dram = val })
  write-Inv val h = record {
    unwritten = λ c. ground (arith, at-Place h);
    unmarked = v.unmarked;
    unlogged = v.unlogged;
    logged = v.logged;
    place = other s.marking v.place;
    progress =
        stays_known (record s { dram = val })
          (record {
            same_nvm = refl;
            same_log = refl;
            same_logging = refl;
            same_snapshot = refl;
            kept = λ k. k;
            cleared = inl;
            stays_clear = λ c. c;
            stays_unlogged = λ c l. l;
            same_thread_log = λ l. refl;
          });
  }
    where
      other : (m : Marking) → Place s m → Place (record s { dram = val }) m
      other testing_curr p = p
      other testing_prev p = p
      other clearing_prev p = p
      other copying p = p
      other (pushing old_val) p = p
      other setting_curr p = p
      other writing p = p
