-- ===== src/LineRace/Loss.antt =====
-- The order of `clear` and `push_back_and_clwb` in `mark`, src/userthreadctx_t.cpp, where the checkpointing
-- thread comes between the two.
use escort.Prelude.{◌≡◌, refl, inl, true, false, []}
use escort.Plog.{Cacheline}
use escort.LineRace.{
  Line, testing, testing_curr, copying, ended, unmarked, found_unlogged, clear_prev, copy, push,
  set_curr, write, visit_unset, visit_set, read_value, push_value, clear_visited, replay_log,
  replay_thread_log, clear_log, clear_thread_log, next_epoch, IsInitial, Reach, start, later,
}

module _ (old stored new : Cacheline) where
  -- A line that was marked in the epoch that ends, with `stored` in NVM.
  abbrev marked_line : Line
  marked_line = record {
    dram = old;
    nvm = stored;
    prev = true;
    curr = false;
    log = [];
    thread_log = [];
    marking = testing_curr;
    logging = testing;
    snapshot = old;
    overtaken = false;
  }

  marked_line-IsInitial : IsInitial marked_line
  marked_line-IsInitial = record {
    curr_unmarked = refl;
    current = refl;
    stored = λ h. cc;
    log_empty = refl;
    thread_log_empty = refl;
    enters = refl;
    begins = refl;
    not_overtaken = refl;
  }

  -- The line was visited when the thread had cleared the bit, and the update ended before its push.
  abbrev overtaken_line : Line
  overtaken_line = record marked_line {
    prev = false;
    marking = copying;
    logging = ended;
    overtaken = true;
  }

  overtaken_line-Reach : Reach overtaken_line
  overtaken_line-Reach =
      let cleared =
        later
          (later (later (start marked_line-IsInitial) (unmarked refl refl))
            (found_unlogged refl refl))
          (clear_prev refl) in
      let replayed =
        later (later (later cleared (visit_unset refl refl)) (replay_log refl))
          (replay_thread_log refl) in
      later (later replayed (clear_log refl)) (clear_thread_log refl)

  -- The thread then ends `mark` and writes `new`, which the checkpoint of the next epoch logs.
  abbrev overwritten_line : Line
  overwritten_line = record overtaken_line {
    dram = new;
    nvm = old;
    snapshot = new;
    marking = testing_curr;
  }

  overwritten_line-Reach : Reach overwritten_line
  overwritten_line-Reach =
      let marked =
        later (later (later overtaken_line-Reach (copy refl)) (push old refl)) (set_curr refl) in
      let next = later (later marked (write new refl)) (next_epoch refl (inl refl)) in
      let visited =
        later
          (later (later (later next (visit_set refl refl)) (read_value refl)) (push_value new refl))
          (clear_visited refl) in
      let replayed = later (later visited (replay_log refl)) (replay_thread_log refl) in
      later (later replayed (clear_log refl)) (clear_thread_log refl)

  -- For any values the system can reach the end of an update of NVM which leaves the line as the file
  -- had it, `stored`, although it was `old` when the epoch began; and also the end of the update
  -- after that, where NVM has `old` although the line was `new` when that epoch began.
  pub mark_loses :
      ((s : Line) × Reach s × (s.logging ≡ ended) × (s.snapshot ≡ old) × (s.nvm ≡ stored))
      × ((s : Line) × Reach s × (s.logging ≡ ended) × (s.snapshot ≡ new) × (s.nvm ≡ old))
  mark_loses = (
    (overtaken_line, overtaken_line-Reach, refl, refl, refl),
    (overwritten_line, overwritten_line-Reach, refl, refl, refl),
  )
