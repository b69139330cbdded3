-- ===== src/LineRace/CheckpointSteps.antt =====
-- The steps of the checkpointing thread, `log_persistence_unit` and `nvm_heap_update_unit` of
-- src/checkpointing.cpp, and the invariant.
use escort.Prelude.{
  subst, Bool-cases, ◌≡◌, refl, sym, ◌∙◌, inl, Bool, true, false, List, [], ◌∷◌, ◌++◌, arith,
}
use escort.Plog.{Cacheline}
use escort.LineRace.{
  Marking, testing_curr, testing_prev, clearing_prev, copying, pushing, setting_curr, writing,
  Logging, testing, reading, logging, clearing, replaying, replaying_thread, clearing_log,
  clearing_thread, ended, replay, is_logging, Line,
}
use escort.LineRace.Invariant.{Place, Progress, Inv}

replay-append :
    (log : List Cacheline) (value nvm : Cacheline) → replay (log ++ value ∷ []) nvm ≡ value
replay-append [] value nvm = refl
replay-append (v ∷ vs) value nvm = replay-append vs value v

module _ (s : Line) (v : Inv s) where
  at-Progress : {p : Logging} → s.logging ≡ p → Progress s p
  at-Progress h = subst (Progress s) h v.progress

  -- A step of the checkpointing thread, on what the thread does not read.
  proceeds :
      (t : Line)
      → t.dram ≡ s.dram
      → t.curr ≡ s.curr
      → t.thread_log ≡ s.thread_log
      → t.snapshot ≡ s.snapshot
      → t.marking ≡ s.marking
      → (t.prev ≡ true → s.prev ≡ true)
      → Progress t t.logging
      → Inv t
  proceeds t d c l o m p h = record {
    unwritten = λ b. ground (arith, v.unwritten);
    unmarked = λ b. ground (arith, v.unmarked);
    unlogged = λ b. ground (arith, v.unlogged);
    logged = ground (arith, v.logged);
    place = subst (Place t) (sym m) (place_same s.marking v.place);
    progress = h;
  }
    where
      clear : s.prev ≡ false → t.prev ≡ false
      clear b = ground (arith, Bool-cases t.prev)

      place_same : (m : Marking) → Place s m → Place t m
      place_same testing_curr h = h
      place_same testing_prev h = c ∙ h
      place_same clearing_prev h = (c ∙ h.0, l ∙ h.1)
      place_same copying (h, k, e) = (c ∙ h, clear k, l ∙ e)
      place_same (pushing old_val) (h, k, e, q) = (c ∙ h, clear k, l ∙ e, q ∙ sym o)
      place_same setting_curr (h, k) = (c ∙ h, clear k)
      place_same writing h = c ∙ h

  pub visit_set-Inv : s.logging ≡ testing → s.prev ≡ true → Inv (record s { logging = reading })
  visit_set-Inv h b =
      proceeds (record s { logging = reading }) refl refl refl refl refl (λ x. x) (inl b)

  pub visit_unset-Inv :
      s.logging ≡ testing → s.prev ≡ false → Inv (record s { logging = replaying })
  visit_unset-Inv h b =
      proceeds (record s { logging = replaying }) refl refl refl refl refl (λ x. x)
        (b, ground (arith, at-Progress h, b))

  pub read_value-Inv : s.logging ≡ reading → Inv (record s { logging = logging s.dram })
  read_value-Inv h =
      proceeds (record s { logging = logging s.dram }) refl refl refl refl refl (λ x. x)
        (ground (arith, at-Progress h, v.unmarked, v.unwritten))

  pub push_value-Inv :
      (value : Cacheline)
      → s.logging ≡ logging value
      → Inv (record s { log = s.log ++ value ∷ []; logging = clearing })
  push_value-Inv value h =
      proceeds (record s { log = s.log ++ value ∷ []; logging = clearing }) refl refl refl refl refl
        (λ x. x) (ground (arith, at-Progress h, replay-append s.log value s.nvm))

  pub clear_visited-Inv :
      s.logging ≡ clearing → Inv (record s { prev = false; logging = replaying })
  clear_visited-Inv h =
      proceeds (record s { prev = false; logging = replaying }) refl refl refl refl refl (λ x. cc)
        (refl, at-Progress h)

  pub replay_log-Inv :
      s.logging ≡ replaying
      → Inv (record s { nvm = replay s.log s.nvm; logging = replaying_thread })
  replay_log-Inv h =
      proceeds (record s { nvm = replay s.log s.nvm; logging = replaying_thread }) refl refl refl
        refl refl (λ x. x) (at-Progress h)

  pub replay_thread_log-Inv :
      s.logging ≡ replaying_thread
      → is_logging s.marking ≡ false
      → (b : Bool)
      → Inv (record s { nvm = replay s.thread_log s.nvm; logging = clearing_log; overtaken = b })
  replay_thread_log-Inv h early b =
      proceeds (record s { nvm = replay s.thread_log s.nvm; logging = clearing_log; overtaken = b })
        refl refl refl refl refl (λ x. x)
        ((at-Progress h).0, early, ground (arith, (at-Progress h).1, v.logged))

  pub clear_log-Inv :
      s.logging ≡ clearing_log → Inv (record s { log = []; logging = clearing_thread })
  clear_log-Inv h =
      let (c, l, n) = at-Progress h in
      proceeds (record s { log = []; logging = clearing_thread }) refl refl refl refl refl (λ x. x)
        (c, l, n, refl)

  pub clear_thread_log-Inv :
      s.logging ≡ clearing_thread → Inv (record s { thread_log = []; logging = ended })
  clear_thread_log-Inv h =
      let (c, l, n, e) = at-Progress h in
      record {
        unwritten = v.unwritten;
        unmarked = λ b. cc;
        unlogged = λ b. refl;
        logged = inl refl;
        place = emptied s.marking l v.place;
        progress = (c, l, n, e, refl);
      }
    where
      emptied :
          (m : Marking)
          → is_logging m ≡ false
          → Place s m
          → Place (record s { thread_log = []; logging = ended }) m
      emptied testing_curr l p = p
      emptied testing_prev l p = p
      emptied clearing_prev l p = cc
      emptied copying l p = cc
      emptied (pushing old_val) l p = cc
      emptied setting_curr l p = p
      emptied writing l p = p

  pub next_epoch-Inv :
      s.logging ≡ ended
      → Inv (record s {
        prev = s.curr;
        curr = s.prev;
        marking = testing_curr;
        logging = testing;
        snapshot = s.dram;
      })
  next_epoch-Inv h =
      let (c, l, n, e, g) = at-Progress h in
      record {
        unwritten = λ b. refl;
        unmarked = λ b. c;
        unlogged = λ b. g;
        logged = inl g;
        place = tt;
        progress = ground (arith, e, n, v.unwritten, Bool-cases s.curr);
      }
