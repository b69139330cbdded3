-- ===== src/Startup/Init.antt =====
-- `escort_init` as a whole, and the running system that it starts.
use escort.Prelude.{ℕ, ◌+◌, ◌-◌, ◌≡◌, Bool, true, false, Option, none, some, []}
use escort.Address.{cache_line_size, dram_base}
use escort.Bitmap
use escort.Bitmap.{Bitmap, is_set}
use escort.Epoch.{EpochPhase, get_phase}
use escort.Plog.{Plogs}
use escort.Allocator.{Jemalloc}
use escort.NvmConfig.{set_checkpointing_thread}
use escort.EpochProtocol
use escort.EpochProtocol.{System}
use escort.Durability.{Run, free, resting}
use escort.Startup.{Process, global_epoch, first_execution, escort_init}
use escort.Startup.Steps.{Opened, managed, restored, init_bitmap-mapped, recover-restored}
use escort.Startup.Lines.{line_from}

-- The bitmaps through the array of pointers, all clear where these are null.
abbrev pub bitmap_of : Option (Bool → Bitmap) → Bool → Bitmap
bitmap_of none c = Bitmap.new 0
bitmap_of (some b) c = b c

-- The state of the system that a process starts: no thread is registered yet.
abbrev pub run_of : {H : Type 0} → Process H → Run Plogs
run_of s = record {
  sys = record EpochProtocol.init { global_epoch = global_epoch s.config };
  world = record {
    global_epoch = global_epoch s.config;
    dram = λ a. line_from cache_line_size (λ j. s.dram (a - dram_base + j));
    nvm = s.nvm;
    bitmap = bitmap_of s.bitmap;
    thread_epoch = λ _. 0;
    addrlist = λ _. λ _. [];
    logs = s.plogs;
  };
  activity = λ _. free;
  phase = resting;
}

module _ (J : Jemalloc) (start nvm_size : ℕ) (words : ℕ → ℕ) where
  open J use {Heap}

  abbrev pub after : ℕ → Process Heap → Process Heap
  after num t = record t { config = set_checkpointing_thread num t.config; cp_master = some num }

  pub escort_init-recovery :
      (may_write : ℕ → Bool) (num : ℕ) (phase : EpochPhase) (s : Process Heap)
      → Opened start nvm_size words s
      → get_phase (words (start + 16)) ≡ some phase
      → escort_init J may_write num true s
        ≡ some (after num (restored J start nvm_size words may_write phase s))
  unfolding escort_init
  escort_init-recovery may_write num phase s o h = rw (
    init_bitmap-mapped start nvm_size words s o,
    recover-restored J start nvm_size words may_write phase s o h,
    o.no_master,
  )

  pub escort_init-first :
      (may_write : ℕ → Bool) (num : ℕ) (s : Process Heap)
      → Opened start nvm_size words s
      → escort_init J may_write num false s
        ≡ some (after num (first_execution J (managed start nvm_size words s)))
  unfolding escort_init
  escort_init-first may_write num s o =
      rw (init_bitmap-mapped start nvm_size words s o, o.no_master)
