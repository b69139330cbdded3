-- ===== src/World.antt =====
-- The state that user threads and the checkpointing thread share: src/globalEscort.cpp (the global
-- variables), the fields of src/userthreadctx_t.hpp that take part in the checkpoint of the heap,
-- and the two heaps. Thread `i` is entry `i` of `_ctx_array`. DRAM and NVM are read and written by
-- cache lines, at the addresses where these begin.
use Prim.Native.Nat.{bit_and}
use escort.Prelude.{ℕ, ◌+◌, ◌-◌, ◌%◌, ◌^◌, Bool, true, false, not, ◌==◌}
use escort.Epoch.{epoch}
use escort.Bitmap.{Bitmap}
use escort.Addrlist.{Addrlist}
use escort.Plog.{Memory}

pub record World (S : Type 0) : Type 0 where
  pub global_epoch : ℕ
  pub dram : Memory
  pub nvm : Memory
  pub bitmap : Bool → Bitmap
  -- `_epoch`, 0 outside of an operation, and the `_addrlist` of each thread
  pub thread_epoch : ℕ → ℕ
  pub addrlist : ℕ → Bool → Addrlist
  -- the `_log` of each thread and that of the checkpointing thread
  pub logs : S

-- A pair of objects with one of them replaced: an array `a[2]` indexed by a `bool`.
abbrev pub put {ℓ} : {A : Type ℓ} → Bool → A → (Bool → A) → Bool → A
put true a f true = a
put true a f false = f false
put false a f true = f true
put false a f false = a

-- `static_cast<bool>(epoch & 0x1)`
unfoldable pub curr_of : ℕ → Bool
curr_of e = not (bit_and e 0x1 == 0)

-- `static_cast<bool>((Epoch(GLOBAL_EPOCH)-1) & 0x1)`
unfoldable pub prev_of : ℕ → Bool
unfolding epoch
prev_of e = not (bit_and ((epoch e + 2 ^ 64 - 1) % 2 ^ 64) 0x1 == 0)
