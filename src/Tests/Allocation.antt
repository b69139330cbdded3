-- ===== src/Tests/Allocation.antt =====
-- An allocator that hands out addresses in order, one thread, and two log blocks.
use escort.Prelude.{
  ◌==◌, if◌then◌else◌, update, ==_iff, ℕ, zero, suc, ◌+◌, ◌^◌, ◌≡◌, refl, true, false, not, Option,
  none, some, List, [], ◌∷◌, arith,
}
use escort.Address.{get_index, line_addr}
use escort.Epoch.{get_phase}
use escort.Chain.{Block, push_back, fetch, append_tail}
use escort.Allocatorlog.{AllocEntry, allocator_log_block_num, append, management}
use escort.Allocatorlog.Management.{management-ready}
use escort.World.{prev_of, curr_of}
use escort.Allocator.{Jemalloc, AllocWorld, toggle, dealloc_or_delay, free_with_create_log}
use escort.Allocator.Net.{toggles, Net, toggles-Net}
use escort.Bytemap.{set_obj_size, fill}
use escort.Chain.Valid.{Valid}
use escort.Cpallocator.{check_valid, checkpointing}
use escort.Cpallocator.Update.{Updated, checkpointing-Updated}
use escort.Cpallocator.Logs.{Passed, Logged}
use escort.Cpallocator.Judged.{Judged}
use escort.Cpallocator.Visits.{visits}
use escort.Cpallocator.Total.{InMap, check_valid_total}

-- The state is the next address and the list of the addresses freed.
abbrev pub in_order : Jemalloc
in_order = record {
  Heap = ℕ × List ℕ;
  malloc = λ size h. (h.0, (h.0 + size, h.1));
  free = λ addr h. (h.0, addr ∷ h.1);
}

abbrev pub area : ℕ → Block ℕ AllocEntry
area b = record {
  header = 0;
  size = 0;
  entries = λ j. record { addr = 0; size = 0; is_valid = false };
}

-- Thread 0 is in epoch 3 while operations of two epochs run, and line 9 was put off in epoch 2.
abbrev begun : AllocWorld (ℕ × List ℕ)
begun = record {
  heap = (line_addr 100, []);
  global_epoch = 2 ^ 63 + 3;
  thread_epoch = λ i. if_zero i;
  bytemap = λ odd index. 0;
  bytemap_nvm = λ index. 0;
  logs = management 2 area;
  delayed = λ i odd. elim odd [ true ↦ [] | false ↦ line_addr 9 ∷ [] ];
}
  where
    if_zero : ℕ → ℕ
    if_zero zero = 2 ^ 63 + 3
    if_zero (suc i) = 0

line_7 : get_index (line_addr 7) ≡ some 7
unfolding get_index
line_7 = refl

toggles-Net_example :
    (w' : AllocWorld (ℕ × List ℕ)) × (toggles in_order 0 true
        (2 ^ 63 + 3)
        (line_addr 7)
        128
        7
        line_7
        3
        begun
      ≡ some w')
    × Net in_order 0 true (2 ^ 63 + 3) (line_addr 7) 128 7 line_7 3 begun w'
unfolding management
toggles-Net_example =
    toggles-Net in_order 0 true (2 ^ 63 + 3) (line_addr 7) 128 7 line_7 3 begun
      (management-ready 2 area) refl (omega arith)

freed : Option (AllocWorld (ℕ × List ℕ))
unfolding free_with_create_log toggle dealloc_or_delay get_phase curr_of append push_back fetch
    append_tail management
freed = free_with_create_log in_order 0 (line_addr 7) 128 begun

freed_world : AllocWorld (ℕ × List ℕ)
unfolding freed
freed_world = elim freed [ none ↦ begun | some w ↦ w ]

-- The next epoch has begun.
ended : AllocWorld (ℕ × List ℕ)
ended = record freed_world { global_epoch = 2 ^ 62 + 4 }

ended-InMap : InMap ended.logs
unfolding ended freed_world
ended-InMap b j l = (7, ground (arith, line_7))

check_valid_total_example :
    (w' : AllocWorld (ℕ × List ℕ)) × (check_valid in_order (0 ∷ []) ended ≡ some w')
    × Passed
        (Logged (prev_of ended.global_epoch) (0 ∷ []) ended.logs)
        ended.logs
        w'.logs
        (ended.bytemap (prev_of ended.global_epoch))
        (w'.bytemap (prev_of ended.global_epoch))
    × Judged
        (visits (prev_of ended.global_epoch) (0 ∷ []) ended.logs)
        ended.logs
        w'.logs
        (ended.bytemap (prev_of ended.global_epoch))
        (w'.bytemap (prev_of ended.global_epoch))
    × (w'.bytemap (not (prev_of ended.global_epoch))
        ≡ ended.bytemap (not (prev_of ended.global_epoch)))
check_valid_total_example = check_valid_total in_order (0 ∷ []) ended ended-InMap

-- The log of thread 0 for odd epochs has an entry of two lines at line 7.
abbrev logged : AllocWorld (ℕ × List ℕ)
logged = record begun {
  global_epoch = 2 ^ 62 + 4;
  logs = record {
    free = 0 ∷ [];
    used = 1 ∷ [];
    block = λ b.
        if b == 1
        then record {
          header = 3;
          size = 1;
          entries = λ _. record { addr = line_addr 7; size = 128; is_valid = true };
        }
        else area b;
    chain = λ k. if k == 1 then 1 ∷ [] else [];
  };
}

logged-Valid : Valid allocator_log_block_num logged.logs
logged-Valid = record {
  single = λ b. ground arith;
  owned = λ k b. ground arith;
  apart = λ j k b h. ground (arith, ==_iff j 1, ==_iff k 1);
  cleared = λ b h. ground arith;
  bounded = λ b h. ground arith;
}

checkpointing-Updated_example :
    (w' : AllocWorld (ℕ × List ℕ)) × (checkpointing in_order (0 ∷ []) logged ≡ some w')
    × Updated in_order (0 ∷ []) logged (update (λ index. 0) 7 2) w'
unfolding prev_of get_index set_obj_size fill
checkpointing-Updated_example =
    checkpointing-Updated in_order (0 ∷ []) logged (update (λ index. 0) 7 2) logged-Valid (refl, tt)
      refl
