-- ===== src/Tests/Marking.antt =====
-- One line of which both threads take the old value, 5, and one of which neither does in time.
use escort.Prelude.{◌≡◌, refl, true, false, []}
use escort.LineRace.{
  Line, testing, testing_curr, writing, ended, unmarked, found_unlogged, clear_prev, copy, push,
  set_curr, write, visit_set, read_value, push_value, clear_visited, replay_log, replay_thread_log,
  clear_log, clear_thread_log, IsInitial, Reach, start, later,
}
use escort.LineRace.Safety.{ended_stores}
use escort.LineRace.Loss.{mark_loses}

abbrev marked_line : Line
marked_line = record {
  dram = 5;
  nvm = 1;
  prev = true;
  curr = false;
  log = [];
  thread_log = [];
  marking = testing_curr;
  logging = testing;
  snapshot = 5;
  overtaken = false;
}

marked_line-IsInitial : IsInitial marked_line
marked_line-IsInitial = record {
  curr_unmarked = refl;
  current = refl;
  stored = λ h. cc;
  log_empty = refl;
  thread_log_empty = refl;
  enters = refl;
  begins = refl;
  not_overtaken = refl;
}

-- The visit has found the bit set before the thread clears it, and reads the line after the thread has
-- written 8.
abbrev logged_twice : Line
logged_twice = record marked_line {
  dram = 8;
  nvm = 5;
  prev = false;
  curr = true;
  marking = writing;
  logging = ended;
}

logged_twice-Reach : Reach logged_twice
logged_twice-Reach =
    let both =
      later (later (later (start marked_line-IsInitial) (visit_set refl refl)) (unmarked refl refl))
        (found_unlogged refl refl) in
    let marked =
      later
        (later (later (later (later both (clear_prev refl)) (copy refl)) (push 5 refl))
          (set_curr refl))
        (write 8 refl) in
    let visited =
      later (later (later marked (read_value refl)) (push_value 8 refl)) (clear_visited refl) in
    let replayed = later (later visited (replay_log refl)) (replay_thread_log refl) in
    later (later replayed (clear_log refl)) (clear_thread_log refl)

ended_stores_example :
    (logged_twice.nvm ≡ logged_twice.snapshot)
    × (logged_twice.log ≡ [])
    × (logged_twice.thread_log ≡ [])
ended_stores_example = ended_stores logged_twice logged_twice-Reach refl refl

mark_loses_example :
    ((s : Line) × Reach s × (s.logging ≡ ended) × (s.snapshot ≡ 5) × (s.nvm ≡ 1))
    × ((s : Line) × Reach s × (s.logging ≡ ended) × (s.snapshot ≡ 8) × (s.nvm ≡ 5))
mark_loses_example = mark_loses 5 1 8
