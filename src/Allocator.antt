-- ===== src/Allocator.antt =====
-- Allocation with a log, src/userthreadctx_t.cpp (`malloc`, `free`), and its part of the checkpoint:
-- src/cpallocator_t.cpp and src/deallocator_t.cpp. The allocator proper is jemalloc, which is a
-- parameter: a state, and the calls `_escort_internal_malloc` and `_escort_internal_free`.
pub mod Net
pub mod Delay
use escort.Prelude.{
  ℕ, zero, suc, ◌+◌, ◌-◌, Bool, true, false, not, Option, none, some, List, [], ◌∷◌, ◌++◌, ◌==◌,
  if◌then◌else◌, update, assert, ◌>>=◌, ◌>>◌,
}
use escort.Address.{get_index}
use escort.Epoch.{EpochPhase, multi_epoch_existence, epoch, get_phase}
use escort.Bytemap
use escort.Bytemap.{Bytemap, set_obj_size}
use escort.Chain.{Block}
use escort.Allocatorlog
use escort.Allocatorlog.{Allocatorlogs, AllocEntry, log_of}
use escort.World.{put, curr_of, prev_of}

-- `_escort_internal_malloc` returns an address and the new state; it does not fail here.
pub record Jemalloc : Type 1 where
  pub Heap : Type 0
  pub malloc : ℕ → Heap → ℕ × Heap
  pub free : ℕ → Heap → Heap

pub record AllocWorld (H : Type 0) : Type 0 where
  pub heap : H
  pub global_epoch : ℕ
  pub thread_epoch : ℕ → ℕ
  -- `gv::ByteMap[2]` and `gv::ByteMap_NVM`
  pub bytemap : Bool → Bytemap
  pub bytemap_nvm : Bytemap
  pub logs : Allocatorlogs
  -- `_delay_dealloc_list[2]` of each thread
  pub delayed : ℕ → Bool → List ℕ

module _ (J : Jemalloc) where
  open J use {Heap}

  -- `begin_op` where the global epoch does not change meanwhile: the first round of its loop ends it.
  unfoldable pub begin_op : ℕ → AllocWorld Heap → Option (AllocWorld Heap)
  begin_op i w = do
    assert (not (w.global_epoch == 0))
    some (record w { thread_epoch = update w.thread_epoch i w.global_epoch })

  unfoldable pub end_op : ℕ → AllocWorld Heap → Option (AllocWorld Heap)
  end_op i w = do
    assert (not (w.thread_epoch i == 0))
    some (record w { thread_epoch = update w.thread_epoch i 0 })

  -- A block is logged at its first allocation or deallocation in an epoch, and its byte then tells
  -- whether one more cancels it.
  unfoldable pub toggle : ℕ → Bool → ℕ → ℕ → ℕ → AllocWorld Heap → Option (AllocWorld Heap)
  toggle i curr e addr size w = do
    index ← get_index addr
    if Bytemap.is_set (w.bytemap curr) index
        then some
            (record w { bytemap = put curr (Bytemap.reverse index (w.bytemap curr)) w.bytemap })
        else (do
          logs' ← Allocatorlog.append (log_of i curr) addr size (epoch e) w.logs
          some (record w {
            bytemap = put curr (Bytemap.set index (w.bytemap curr)) w.bytemap;
            logs = logs';
          }))

  unfoldable pub malloc_with_create_log : ℕ → ℕ → AllocWorld Heap → Option (ℕ × AllocWorld Heap)
  malloc_with_create_log i size w = do
    let is_out_of_transaction = w.thread_epoch i == 0
    w₁ ← (if is_out_of_transaction then begin_op i w else some w)
    let e = w₁.thread_epoch i
    let (ret, heap') = J.malloc size w₁.heap
    w₂ ← toggle i (curr_of e) e ret size (record w₁ { heap = heap' })
    w₃ ← (if is_out_of_transaction then end_op i w₂ else some w₂)
    some (ret, w₃)

  -- The real deallocation, put off while operations of two epochs run.
  unfoldable pub dealloc_or_delay : ℕ → Bool → ℕ → ℕ → AllocWorld Heap → Option (AllocWorld Heap)
  dealloc_or_delay i curr e addr w = do
    phase ← get_phase e
    some (elim phase [
      | multi_epoch_existence ↦ record w {
        delayed = update w.delayed i (put curr (w.delayed i curr ++ addr ∷ []) (w.delayed i));
      }
      | _ ↦ record w { heap = J.free addr w.heap }
    ])

  unfoldable pub free_with_create_log : ℕ → ℕ → ℕ → AllocWorld Heap → Option (AllocWorld Heap)
  free_with_create_log i addr size w = do
    let is_out_of_transaction = w.thread_epoch i == 0
    w₁ ← (if is_out_of_transaction then begin_op i w else some w)
    let e = w₁.thread_epoch i
    w₂ ← toggle i (curr_of e) e addr size w₁
    w₃ ← dealloc_or_delay i (curr_of e) e addr w₂
    if is_out_of_transaction then end_op i w₃ else some w₃

  -- `deallocator_t::dealloc`: what was put off in the previous epoch.
  abbrev pub free_all : List ℕ → Heap → Heap
  free_all [] h = h
  free_all (addr ∷ rest) h = free_all rest (J.free addr h)

  unfoldable pub dealloc_threads : Bool → List ℕ → AllocWorld Heap → AllocWorld Heap
  dealloc_threads prev [] w = w
  dealloc_threads prev (i ∷ rest) w = dealloc_threads prev rest (record w {
    heap = free_all (w.delayed i prev) w.heap;
    delayed = update w.delayed i (put prev [] (w.delayed i));
  })

  unfoldable pub dealloc : List ℕ → AllocWorld Heap → AllocWorld Heap
  unfolding dealloc_threads
  dealloc ctxs w = dealloc_threads (prev_of w.global_epoch) ctxs w
