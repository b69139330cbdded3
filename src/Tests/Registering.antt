-- ===== src/Tests/Registering.antt =====
-- Thread 0 registers, and thread 1 asks for the execute right while a round runs.
use escort.Prelude.{◌≡◌, refl, true, false, [], ◌∷◌, update}
use escort.Allocator.Delay.{IsDistinct}
use escort.Registration.{
  init_call, outside, counted, granted, entered, uncounted, in_round, Registry, thread_init,
  take_right, enter, uncount, release, begin_round, Reach, start, later,
}
use escort.Registration.Exclusion.{round_keeps_threads}

abbrev in_use : Registry
in_use = record {
  has_execute_right = true;
  num_wait_threads = 0;
  ctx_array = 0 ∷ [];
  ctx_delete_array = λ _. [];
  has_ctx = update (λ _. false) 0 true;
  pc =
      update
        (update
          (update (update (update (λ _. outside) 0 (counted init_call)) 0 (granted init_call)) 0
            (entered init_call))
          0 uncounted)
        0 outside;
  master = in_round;
  global_epoch = 2;
}

reach_in_use : Reach in_use
reach_in_use =
    later
      (later
        (later
          (later
            (later (later (start 2) (thread_init 0 refl refl)) (take_right 0 init_call refl refl))
            (enter 0 init_call refl))
          (uncount 0 init_call refl))
        (release 0 refl))
      (begin_round refl refl)

abbrev asked : Registry
asked = record in_use {
  has_ctx = update in_use.has_ctx 1 true;
  num_wait_threads = 1;
  pc = update in_use.pc 1 (counted init_call);
}

round_keeps_threads_example :
    IsDistinct (0 ∷ [])
    × (asked.ctx_array ≡ 0 ∷ [])
    × (asked.ctx_delete_array ≡ in_use.ctx_delete_array)
round_keeps_threads_example =
    round_keeps_threads in_use asked reach_in_use refl (thread_init 1 refl refl)
