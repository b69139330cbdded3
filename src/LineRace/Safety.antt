-- ===== src/LineRace/Safety.antt =====
-- NVM at the end of an update, after any interleaving of `mark` (src/userthreadctx_t.cpp) and the checkpoint
-- (src/checkpointing.cpp) within one line.
use escort.Prelude.{subst, Bool-cases, ◌≡◌, sym, ap, inl, false, [], arith}
use escort.LineRace.{
  Line, Step, marked, unmarked, found_logged, found_unlogged, clear_prev, copy, push, set_curr,
  write, mark_again, visit_unset, visit_set, read_value, push_value, clear_visited, replay_log,
  replay_thread_log, clear_log, clear_thread_log, next_epoch, IsInitial, Reach, start, later,
  testing_curr, testing_prev, setting_curr, writing, pushing, is_logging, ended, testing_curr,
}
use escort.LineRace.Invariant.{Place, Progress, Inv}
use escort.LineRace.ThreadSteps.{
  at-Place, goes, found_unlogged-Inv, clear_prev-Inv, push-Inv, set_curr-Inv, write-Inv,
}
use escort.LineRace.CheckpointSteps.{
  visit_set-Inv, visit_unset-Inv, read_value-Inv, push_value-Inv, clear_visited-Inv, replay_log-Inv,
  replay_thread_log-Inv, clear_log-Inv, clear_thread_log-Inv, next_epoch-Inv,
}

initial-Inv : (s : Line) → IsInitial s → Inv s
initial-Inv s i = record {
  unwritten = λ c. sym i.current;
  unmarked = λ b. i.curr_unmarked;
  unlogged = λ b. i.thread_log_empty;
  logged = inl i.thread_log_empty;
  place = subst (Place s) (sym i.enters) tt;
  progress =
      subst (Progress s) (sym i.begins) (ground (arith, i.stored, i.log_empty, Bool-cases s.prev));
}

-- What has been overtaken stays so.
earlier : {s t : Line} → Step s t → t.overtaken ≡ false → s.overtaken ≡ false
earlier (marked h c) o = o
earlier (unmarked h c) o = o
earlier (found_logged h c) o = o
earlier (found_unlogged h c) o = o
earlier (clear_prev h) o = o
earlier (copy h) o = o
earlier (push x h) o = o
earlier (set_curr h) o = o
earlier (write x h) o = o
earlier (mark_again h) o = o
earlier (visit_unset h c) o = o
earlier (visit_set h c) o = o
earlier (read_value h) o = o
earlier (push_value x h) o = o
earlier (clear_visited h) o = o
earlier (replay_log h) o = o
earlier (replay_thread_log h) o = ground (arith, o)
earlier (clear_log h) o = o
earlier (clear_thread_log h) o = o
earlier (next_epoch h b) o = o

step-Inv : {s t : Line} → Step s t → t.overtaken ≡ false → Inv s → Inv t
step-Inv {s} (marked h c) o v = goes s v writing (ap is_logging h) c
step-Inv {s} (unmarked h c) o v = goes s v testing_prev (ap is_logging h) c
step-Inv {s} (found_logged h c) o v = goes s v setting_curr (ap is_logging h) (at-Place s v h, c)
step-Inv {s} (found_unlogged h c) o v = found_unlogged-Inv s v h c
step-Inv {s} (clear_prev h) o v = clear_prev-Inv s v h
step-Inv {s} (copy h) o v =
    let (c, p, e) = at-Place s v h in
    goes s v (pushing s.dram) (ap is_logging h) (c, p, e, v.unwritten c)
step-Inv {s} (push x h) o v = push-Inv s v x h
step-Inv {s} (set_curr h) o v = set_curr-Inv s v h
step-Inv {s} (write x h) o v = write-Inv s v x h
step-Inv {s} (mark_again h) o v = goes s v testing_curr (ap is_logging h) tt
step-Inv {s} (visit_unset h c) o v = visit_unset-Inv s v h c
step-Inv {s} (visit_set h c) o v = visit_set-Inv s v h c
step-Inv {s} (read_value h) o v = read_value-Inv s v h
step-Inv {s} (push_value x h) o v = push_value-Inv s v x h
step-Inv {s} (clear_visited h) o v = clear_visited-Inv s v h
step-Inv {s} (replay_log h) o v = replay_log-Inv s v h
step-Inv {s} (replay_thread_log h) o v =
    replay_thread_log-Inv s v h (ground (arith, o, Bool-cases (is_logging s.marking))) _
step-Inv {s} (clear_log h) o v = clear_log-Inv s v h
step-Inv {s} (clear_thread_log h) o v = clear_thread_log-Inv s v h
step-Inv {s} (next_epoch h b) o v = next_epoch-Inv s v h

Reach-Inv : {s : Line} → Reach s → s.overtaken ≡ false → Inv s
Reach-Inv {s} (start i) o = initial-Inv s i
Reach-Inv (later r st) o = step-Inv st o (Reach-Inv r (earlier st o))

-- In every reachable state where an update of NVM has ended, however the accesses of the thread and
-- of the checkpointing thread to the line interleaved, and unless the log of the thread was replayed
-- while the thread was between its test of the previous epoch's bit and its push, NVM has the value
-- that the line had when the epoch began, and neither log has an entry left.
pub ended_stores :
    (s : Line)
    → Reach s
    → s.logging ≡ ended
    → s.overtaken ≡ false
    → (s.nvm ≡ s.snapshot) × (s.log ≡ []) × (s.thread_log ≡ [])
ended_stores s r h o =
    let (c, l, n, e, g) = subst (Progress s) h (Reach-Inv r o).progress in (n, e, g)
