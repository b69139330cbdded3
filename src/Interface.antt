-- ===== src/Interface.antt =====
-- The calls that programs make on the heap, src/Escort.cpp and `pwrite` of src/Escort.hpp, by any
-- thread in any order, each call whole, while the checkpointing thread rests. `lv::ctx` of the calling
-- thread is null or the number of its context.
pub mod Regions
pub mod Marks
pub mod Rules
pub mod Working
pub mod Calls
pub mod Finalize
pub mod Restart
pub mod Roots
use escort.Prelude.{
  ℕ, suc, ◌+◌, ◌-◌, ◌*◌, ◌/◌, ◌%◌, ◌^◌, not, Option, none, some, List, [], ◌∷◌, length, ◌==◌,
  update, assert, ◌>>=◌, ◌>>◌,
}
use escort.Address.{cache_line_size}
use escort.Plog.{Cacheline, Memory}
use escort.World.{World}
use escort.RedoLog.{RedoLogs}
use escort.Userthread
use escort.Userthread.{mark}

-- A line with byte `j` replaced.
abbrev pub set_byte : ℕ → ℕ → Cacheline → Cacheline
set_byte j b v = v % 256 ^ j + b * 256 ^ j + v / 256 ^ suc j * 256 ^ suc j

-- `*addr = val`, for a `val` of these bytes.
abbrev pub assign : ℕ → List ℕ → Memory → Memory
assign addr [] dram = dram
assign addr (b ∷ bs) dram =
    let line = addr - addr % cache_line_size in
    assign (suc addr) bs (update dram line (set_byte (addr % cache_line_size) b (dram line)))

-- `lv::ctx`
abbrev pub Ctx : Type 0
Ctx = Option ℕ

pub data Call : Type 0 where
  begin_op_call : Call
  end_op_call : Call
  write_region_call : (addr size : ℕ) → Call
  pwrite_call : (addr : ℕ) (val : List ℕ) → Call

module _ (L : RedoLogs) where
  open L use {State}

  -- `begin_op`: no other thread moves, so that the loop has one round.
  unfoldable pub begin_op : ℕ → World State → Option (World State)
  begin_op i w = do
    assert (not (w.global_epoch == 0))
    some (record w { thread_epoch = update w.thread_epoch i w.global_epoch })

  unfoldable pub escort_begin_op : Ctx → World State → Option (World State)
  unfolding begin_op
  escort_begin_op ctx w = do i ← ctx; begin_op i w

  unfoldable pub escort_end_op : Ctx → World State → Option (World State)
  escort_end_op ctx w = do i ← ctx; Userthread.end_op L i w

  unfoldable pub escort_write_region : Ctx → ℕ → ℕ → World State → Option (World State)
  escort_write_region ctx addr size w = do i ← ctx; mark L i addr size w

  unfoldable pub pwrite : Ctx → ℕ → List ℕ → World State → Option (World State)
  pwrite ctx addr val w = do
    w' ← escort_write_region ctx addr (length val) w
    some (record w' { dram = assign addr val w'.dram })

  abbrev pub call : Ctx → Call → World State → Option (World State)
  call ctx begin_op_call w = escort_begin_op ctx w
  call ctx end_op_call w = escort_end_op ctx w
  call ctx (write_region_call addr size) w = escort_write_region ctx addr size w
  call ctx (pwrite_call addr val) w = pwrite ctx addr val w

  -- The calls of all threads, in the order in which they are made.
  abbrev pub run : List (Ctx × Call) → World State → Option (World State)
  run [] w = some w
  run ((ctx, c) ∷ rest) w = do w' ← call ctx c w; run rest w'
