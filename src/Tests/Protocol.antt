-- ===== src/Tests/Protocol.antt =====
-- One thread that enters epoch 2, is still in it when epoch 3 begins, leaves it, and enters epoch 3.
use escort.Prelude.{◌≡◌, refl, update, true, false, arith}
use escort.Epoch.{epoch}
use escort.EpochProtocol.{
  System, Reach, start, later, load, publish, enter, leave, pass, advance, outside, loaded,
  published, inside,
}
use escort.EpochProtocol.Invariant.{wait_complete}

abbrev second : System
second = record {
  global_epoch = 3;
  thread_epoch = update (λ i. 0) 0 2;
  pc = update (update (update (λ i. outside) 0 (loaded 2)) 0 (published 2)) 0 (inside 2);
  passed = λ i. false;
}

in_second : Reach 1 second
unfolding epoch
in_second =
    later (later (later (later start (load 0 refl)) (publish 0 2 refl)) (enter 0 2 refl refl))
      (advance 3 (λ i l. refl) refl)

abbrev third : System
third = record {
  global_epoch = 3;
  thread_epoch = update (update second.thread_epoch 0 0) 0 3;
  pc =
      update (update (update (update second.pc 0 outside) 0 (loaded 3)) 0 (published 3)) 0
        (inside 3);
  passed = update (λ i. false) 0 true;
}

in_third : Reach 1 third
unfolding epoch
in_third =
    later
      (later
        (later (later (later in_second (leave 0 2 refl)) (pass 0 (omega arith) refl)) (load 0 refl))
        (publish 0 3 refl))
      (enter 0 3 refl refl)

wait_complete_example : (epoch 3 ≡ epoch third.global_epoch) × (third.thread_epoch 0 ≡ 3)
wait_complete_example = wait_complete in_third (λ i l. ground arith) 0 3 (omega arith) refl
