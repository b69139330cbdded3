-- ===== src/Tests/Running.antt =====
-- A system with one thread, from its start: in epoch 2 the thread marks line 5 and writes 9 there.
-- Epoch 3 begins, the line is logged, and NVM is about to be written from the logs.
use escort.Prelude.{
  ◌+◌, ◌^◌, ◌≡◌, refl, inl, inr, true, false, Option, none, some, [], ◌∷◌, update, arith,
}
use escort.Address.{line_addr}
use escort.Bitmap
use escort.Chain.{push_back, fetch, append_tail}
use escort.Epoch.{epoch}
use escort.Plog.{Plogs, management, push_back_and_clwb}
use escort.Plog.Management.{management-Valid}
use escort.RedoLog.Plogs.{plogs}
use escort.World.{World, curr_of, put}
use escort.Address.{get_index}
use escort.Durability.Calls.{After, mark_reaches}
use escort.Userthread.{mark, mark_lines, mark_line}
use escort.Checkpoint.{log_line}
use escort.Snapshot.{nvm_addr}
use escort.EpochProtocol
use escort.EpochProtocol.{
  System, outside, loaded, published, inside, load, publish, enter, leave, pass,
}
use escort.EpochHeap.{heap_after}
use escort.Durability
use escort.Durability.{
  Run, Activity, free, marking, resting, waiting, logging, replaying, visit_line, clear_list, Reach,
  start, later, protocol, IsInitial,
}
use escort.Durability.History.{durable_stores, stores_of, first_heap}
use escort.Durability.Refinement.{system_refines, recovered}
use escort.Tests.Heap.{area, no_bits, offset, world_of}

abbrev fresh : Run Plogs
fresh = record {
  sys = EpochProtocol.init;
  world = record {
    global_epoch = 2;
    dram = λ _. 1;
    nvm = λ _. 1;
    bitmap = λ _. no_bits;
    thread_epoch = λ _. 0;
    addrlist = λ _. λ _. [];
    logs = management 3 area;
  };
  activity = λ _. free;
  phase = resting;
}

fresh-IsInitial : IsInitial plogs offset 1 fresh
unfolding management epoch
fresh-IsInitial = record {
  protocol_starts = refl;
  epoch_started = omega arith;
  logs_valid = management-Valid 3 area;
  logs_empty = λ k. refl;
  unmarked = λ c l. refl;
  heaps_agree = λ l b. refl;
  all_free = λ i. refl;
  rests = refl;
}

abbrev in_op : System
in_op = record {
  global_epoch = 2;
  thread_epoch = update (λ _. 0) 0 2;
  pc = update (update (update (λ _. outside) 0 (loaded 2)) 0 (published 2)) 0 (inside 2);
  passed = λ _. true;
}

abbrev entered : Run Plogs
entered = record fresh {
  sys = in_op;
  world = record fresh.world { thread_epoch = in_op.thread_epoch };
}

reach_entered : Reach plogs offset 1 entered
reach_entered =
    later
      (later (later (start fresh-IsInitial) (protocol (load 0 refl) refl (λ i. inr refl)))
        (protocol (publish 0 2 refl) refl (λ i. inr refl)))
      (protocol (enter 0 2 refl refl) refl (λ i. inr refl))

-- The world after a call that returned.
abbrev paired : Option (World Plogs) → Option (Unit {0} × World Plogs)
paired none = none
paired (some w) = some (tt, w)

-- The thread calls `mark` for 8 bytes of line 5.
called : World Plogs
unfolding mark mark_lines mark_line Bitmap.set get_index
called = world_of (paired (mark plogs 0 (line_addr 5) 8 entered.world))

mark_reaches_example :
    (t : Run Plogs) × Reach plogs offset 1 t × After plogs offset 1 entered 0 called free t
unfolding called mark get_index
mark_reaches_example =
    mark_reaches plogs offset 1 0 2 (line_addr 5) 8 5 entered called (omega arith) refl
      (omega arith) reach_entered refl refl refl (λ q l lo hi. refl) refl

pub marked : World Plogs
unfolding mark_line Bitmap.set
marked = world_of (mark_line plogs 0 false (line_addr 5) 5 entered.world)

abbrev written : Run Plogs
written = record entered {
  world = record marked { dram = update marked.dram (line_addr 5) 9 };
  activity = update (update (λ _. free) 0 (marking 5 1 0 false)) 0 (marking 5 1 1 true);
}

reach_written : Reach plogs offset 1 written
unfolding curr_of mark_line marked Bitmap.set
reach_written =
    later
      (later
        (later reach_entered (Durability.begin_mark 0 2 5 1 (omega arith) refl refl (omega arith)))
        (Durability.mark_next {w = marked} 0 2 5 1 0 false true (omega arith) refl refl
          (omega arith) (λ q. absurd (omega arith)) refl))
      (Durability.write 0 2 5 9 (omega arith) refl (omega arith) refl (λ q. absurd (omega arith)))

-- `end_mark`, `leave`, and the next epoch with its wait.
abbrev left : System
left = record in_op { thread_epoch = update in_op.thread_epoch 0 0; pc = update in_op.pc 0 outside }

abbrev in_wait : System
in_wait = record left { global_epoch = 2 ^ 63 + 3; passed = update (λ _. false) 0 true }

abbrev pub waited : Run Plogs
waited = record {
  sys = in_wait;
  world = record written.world {
    global_epoch = 2 ^ 63 + 3;
    thread_epoch = left.thread_epoch;
    addrlist = update (λ _. λ _. []) 0 (put false ((line_addr 5, 1) ∷ []) (λ _. []));
  };
  activity = update written.activity 0 free;
  phase = waiting;
}

pub reach_waited : Reach plogs offset 1 waited
unfolding curr_of epoch mark_line marked Bitmap.set
reach_waited =
    later
      (later
        (later (later reach_written (Durability.end_mark 0 2 5 1 true (omega arith) refl refl))
          (protocol (leave 0 2 refl) refl (λ i. ground arith)))
        (Durability.advance refl (EpochProtocol.advance (2 ^ 63 + 3) (λ i l. refl) refl) refl))
      (protocol (pass 0 (omega arith) refl) refl (λ i. inl refl))

pub waited-nvm : waited.world.nvm ≡ λ _. 1
unfolding marked mark_line Bitmap.set
waited-nvm = refl

visited : World Plogs
unfolding log_line push_back_and_clwb push_back fetch append_tail management
visited = world_of (
    paired
      (log_line plogs false (line_addr 5) 5 (record waited.world { global_epoch = 2 ^ 62 + 3 })))

abbrev crashed : Run Plogs
crashed = record {
  sys = record in_wait { global_epoch = 3 };
  world = record visited {
    global_epoch = 3;
    addrlist = update visited.addrlist 0 (put false [] (visited.addrlist 0));
  };
  activity = waited.activity;
  phase = replaying (0 ∷ 1 ∷ []);
}

reach_crashed : Reach plogs offset 1 crashed
unfolding curr_of epoch log_line visited marked mark_line Bitmap.set
reach_crashed =
    later
      (later
        (later
          (later reach_waited (Durability.begin_log (2 ^ 62 + 3) refl (λ i l. ground arith) refl))
          (Durability.visit {w = visited} 5 refl (omega arith) refl))
        (Durability.clear 0 refl))
      (Durability.begin_update 3 refl refl)

system_refines_example :
    (crashed.world.dram (line_addr 5)
      ≡ heap_after
          (first_heap plogs offset 1 reach_crashed)
          (stores_of plogs offset 1 reach_crashed)
          5)
    × (recovered plogs offset 1 crashed (nvm_addr offset 5)
        ≡ heap_after
            (first_heap plogs offset 1 reach_crashed)
            (durable_stores crashed.phase
              (epoch crashed.sys.global_epoch)
              (stores_of plogs offset 1 reach_crashed))
            5)
system_refines_example = system_refines plogs offset 1 crashed reach_crashed 5 (omega arith)
