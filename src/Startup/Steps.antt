-- ===== src/Startup/Steps.antt =====
-- What the parts of `escort_init` do to a process that has opened its file and nothing else.
use escort.Prelude.{ℕ, ◌+◌, ◌-◌, ◌/◌, ◌%◌, ◌^◌, ◌<◌, ◌≤◌, ◌≡◌, ap, Bool, none, some, arith}
use escort.Address.{cache_line_size, heap_size, num_lines}
use escort.Bitmap
use escort.Epoch.{EpochPhase, get_phase}
use escort.Allocator.{Jemalloc}
use escort.NvmConfig.{
  Config, create_area, malloc, set_bytemap_pointer, get_roottable, reset_thread_num,
}
use escort.Recovery
use escort.Recovery.{recover_logs, block_size}
use escort.Recovery.Phase.{recover_logs_skips}
use escort.Startup.{
  Process, offset_of, nvm_bytes, global_epoch, bytemap_nvm_size, replay_allocator_logs, init_bitmap,
  init_manager, allocate_all, apply_metadata, recover,
}

module _ (start nvm_size : ℕ) (words : ℕ → ℕ) where
  -- The word of the epoch is where it was.
  pub epoch_word :
      (c : Config)
      → c ≡ create_area start nvm_size heap_size words
      → (p q : ℕ)
      → global_epoch (set_bytemap_pointer p (record c { tmp_space = q })) ≡ words (start + 16)
  unfolding create_area
  epoch_word c o p q = ground (
    arith,
    ap (λ c. c.g_epoch_pointer_addr) o,
    ap (λ c. c.bytemap_pointer_addr) o,
    ap (λ c. c.words (start + 16)) o,
  )

-- A process whose file of `nvm_size` bytes, with the words `words`, is mapped at `start`, and has room
-- behind the counters.
pub record Opened {H : Type 0} (start nvm_size : ℕ) (words : ℕ → ℕ) (s : Process H) : Type 0 where
  pub config : s.config ≡ create_area start nvm_size heap_size words
  pub no_bitmap : s.bitmap ≡ none
  pub no_master : s.cp_master ≡ none
  pub room : s.config.tmp_space + bytemap_nvm_size < start + nvm_size

module _ (start nvm_size : ℕ) where
  -- What was handed out, in 64 bits.
  whole_size_bound :
      (t : ℕ)
      → start ≤ t
      → t < start + nvm_size
      → (t % 2 ^ 64 + 2 ^ 64 - start % 2 ^ 64) % 2 ^ 64 < nvm_size
  whole_size_bound t before room = omega arith

  whole_size_first :
      (t : ℕ) → start ≤ t → t < start + nvm_size → (t + 2 ^ 64 - start % 2 ^ 64) % 2 ^ 64 < nvm_size
  whole_size_first t before room = omega arith

module _ (start nvm_size : ℕ) (words : ℕ → ℕ) where
  starts : (c : Config) → c ≡ create_area start nvm_size heap_size words → start ≤ c.tmp_space
  unfolding create_area
  starts c q = ground (arith, ap (λ c. c.tmp_space) q)

module _ {H : Type 0} (start nvm_size : ℕ) (words : ℕ → ℕ) where
  -- The process after `init_bitmap` and `init_manager`.
  abbrev pub mapped : Process H → Process H
  mapped s = record s {
    bitmap = some (λ _. Bitmap.new num_lines);
    config = set_bytemap_pointer s.config.tmp_space (record s.config {
      tmp_space =
          ((s.config.tmp_space + bytemap_nvm_size) % 2 ^ 64 + heap_size / cache_line_size) % 2 ^ 64;
    });
  }

  abbrev pub managed : Process H → Process H
  managed s = init_manager (mapped s)

  pub init_bitmap-mapped :
      (s : Process H) → Opened start nvm_size words s → init_bitmap s ≡ some (mapped s)
  unfolding init_bitmap malloc create_area
  init_bitmap-mapped s o = ground (
    arith,
    o.no_bitmap,
    whole_size_first start nvm_size s.config.tmp_space
        (starts start nvm_size words s.config o.config),
    whole_size_bound start nvm_size (s.config.tmp_space + bytemap_nvm_size),
    starts start nvm_size words s.config o.config,
    o.room,
    ap (λ c. c.start_address) o.config,
    ap (λ c. c.nvm_size) o.config,
  )

module _ (J : Jemalloc) (start nvm_size : ℕ) (words : ℕ → ℕ) where
  open J use {Heap}

  -- The process after a recovery: no log was replayed, whatever the phase.
  abbrev pub restored : (ℕ → Bool) → EpochPhase → Process Heap → Process Heap
  restored may_write phase s =
      let m = managed start nvm_size words s in
      record m {
        dram =
            Recovery.copy may_write (nvm_bytes (offset_of m.config) m.nvm) (heap_size / block_size)
              m.dram;
        allocator_logs = replay_allocator_logs phase m.allocator_logs;
        heap = allocate_all J (heap_size / cache_line_size) m.bytemap_nvm m.heap;
        root_table = get_roottable m.config;
        config = reset_thread_num m.config;
      }

  pub recover-restored :
      (may_write : ℕ → Bool) (phase : EpochPhase) (s : Process Heap)
      → Opened start nvm_size words s
      → get_phase (words (start + 16)) ≡ some phase
      → recover J may_write (managed start nvm_size words s) ≡ some (restored may_write phase s)
  unfolding recover apply_metadata
  recover-restored may_write phase s o h = rw (
    recover_logs_skips (offset_of (mapped start nvm_size words s).config)
        (global_epoch (mapped start nvm_size words s).config) (managed start nvm_size words s).plogs
        s.nvm,
    epoch_word start nvm_size words s.config o.config s.config.tmp_space _,
    h,
  )
