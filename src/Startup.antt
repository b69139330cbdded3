-- ===== src/Startup.antt =====
-- The start of the library, `escort_init` of src/Escort.cpp with src/init.cpp and the last steps of
-- src/recovery.cpp. The file in NVM is seen three ways that do not overlap: the words around the heap
-- (`NvmConfig`), the lines of the heap, and the bytes of the map of sizes; the blocks of both logs lie in
-- files of their own. jemalloc and `mprotect` are parameters.
pub mod Lines
pub mod Steps
pub mod Init
pub mod Start
pub mod Crash
pub mod Open
use escort.Prelude.{
  ℕ, zero, suc, ◌+◌, ◌-◌, ◌*◌, ◌/◌, ◌%◌, ◌^◌, Bool, true, false, not, Option, none, some, List, [],
  ◌∷◌, ltb, ◌==◌, if◌then◌else◌, update, assert, ◌>>=◌, ◌>>◌,
}
use escort.Address.{cache_line_size, dram_base, heap_size, num_lines, line_addr, add_addr}
use escort.Bitmap
use escort.Bitmap.{Bitmap}
use escort.Bytemap.{Bytemap, get_byte}
use escort.Epoch.{EpochPhase, log_persistence, get_phase}
use escort.Plog
use escort.Plog.{Plogs, Cacheline, Memory, log_block_num}
use escort.Allocatorlog
use escort.Allocatorlog.{Allocatorlogs, allocator_log_block_num}
use escort.Allocator.{Jemalloc}
use escort.NvmConfig.{
  Config, store, malloc, set_root_pointer, set_bytemap_pointer, get_roottable, reset_thread_num,
  set_checkpointing_thread,
}
use escort.RootTable.{bucket_size}
use escort.Recovery
use escort.Recovery.{recover_logs, block_size}

-- The global variables of a process, and what it maps.
pub record Process (H : Type 0) : Type 0 where
  pub config : Config
  -- `gv::BitMap[2]`, null before `init_bitmap`
  pub bitmap : Option (Bool → Bitmap)
  pub bytemap : Bool → Bytemap
  pub bytemap_nvm : Bytemap
  pub plogs : Plogs
  pub allocator_logs : Allocatorlogs
  pub nvm : Memory
  -- by bytes from the start of the heap
  pub dram : ℕ → ℕ
  -- jemalloc's state
  pub heap : H
  pub root_table : ℕ
  -- `gv::CpMaster`, null or with the number of its threads
  pub cp_master : Option ℕ

abbrev pub is_null {ℓ} : {A : Type ℓ} → Option A → Bool
is_null none = true
is_null (some a) = false

-- `nvmconfig_t::offset`
abbrev pub offset_of : Config → ℕ
offset_of c = (c.nvm_space + 2 ^ 64 - dram_base) % 2 ^ 64

-- Byte `j` of a line, and the bytes of the heap in NVM.
abbrev pub byte_of : Cacheline → ℕ → ℕ
byte_of v zero = v % 256
byte_of v (suc j) = byte_of (v / 256) j

abbrev pub nvm_bytes : ℕ → Memory → ℕ → ℕ
nvm_bytes offset nvm i =
    byte_of (nvm (add_addr (line_addr (i / cache_line_size)) offset)) (i % cache_line_size)

-- `GLOBAL_EPOCH`
abbrev pub global_epoch : Config → ℕ
global_epoch c = c.words c.g_epoch_pointer_addr

-- `sizeof(bytemap_nvm_t)`, a pointer, and `sizeof(roottable_t)`, buckets that fill a line each.
abbrev pub bytemap_nvm_size : ℕ
bytemap_nvm_size = 8

abbrev pub roottable_size : ℕ
roottable_size = bucket_size * cache_line_size

-- `num_blocks` of the two kinds of log, and the size of a block: entries of two lines and a line for the
-- words behind them, and entries of three words and three words behind them.
abbrev pub plog_blocks : ℕ
plog_blocks = 1024

abbrev pub allocator_log_blocks : ℕ
allocator_log_blocks = 8192 * 4

abbrev pub plog_block_size : ℕ
plog_block_size = log_block_num * (2 * cache_line_size) + cache_line_size

abbrev pub allocator_log_block_size : ℕ
allocator_log_block_size = allocator_log_block_num * 24 + 24

abbrev pub redolog_size : ℕ
redolog_size = plog_blocks * plog_block_size

abbrev pub allocatorlog_size : ℕ
allocatorlog_size = allocator_log_blocks * allocator_log_block_size

-- The loop of `replay_allocator_logs`, which only empties the blocks.
abbrev pub empty_blocks : List ℕ → Allocatorlogs → Allocatorlogs
empty_blocks [] st = st
empty_blocks (b ∷ rest) st =
    let before = empty_blocks rest st in
    record before { block = update before.block b (record (before.block b) { size = 0 }) }

abbrev pub replay_allocator_logs : EpochPhase → Allocatorlogs → Allocatorlogs
replay_allocator_logs phase st = elim phase [ log_persistence ↦ empty_blocks st.free st | _ ↦ st ]

-- The bytes that a `char` of the map of sizes stands for: converted to 32 bits, without a sign.
abbrev pub size_of_char : ℕ → ℕ
size_of_char b =
    if ltb b 128 then b * cache_line_size else ((2 ^ 32 + b - 256) * cache_line_size) % 2 ^ 32

module _ {H : Type 0} where
  unfoldable pub init_bitmap : Process H → Option (Process H)
  init_bitmap s = do
    assert (is_null s.bitmap)
    (obj, c) ← malloc bytemap_nvm_size s.config
    (area, c') ← malloc (heap_size / cache_line_size) c
    some (record s {
      bitmap = some (λ _. Bitmap.new num_lines);
      config = set_bytemap_pointer obj c';
    })

  -- The constructors of both pools run over the blocks that the files hold.
  abbrev pub init_manager : Process H → Process H
  init_manager s = record s {
    plogs = Plog.management plog_blocks s.plogs.block;
    allocator_logs = Allocatorlog.management allocator_log_blocks s.allocator_logs.block;
  }

  abbrev pub init_checkpointing_thread : ℕ → Process H → Option (Process H)
  init_checkpointing_thread num s = do
    assert (is_null s.cp_master)
    some (record s { config = set_checkpointing_thread num s.config; cp_master = some num })

module _ (J : Jemalloc) where
  open J use {Heap}

  abbrev pub init_roottable : Process Heap → Process Heap
  init_roottable s =
      let got = J.malloc roottable_size s.heap in
      record s { heap = got.1; root_table = got.0; config = set_root_pointer got.0 s.config }

  -- The loop of `apply_metadata`, over the first `n` bytes of the map. A `char` is never 128 or more,
  -- so that the branch that skips bytes is not taken.
  unfoldable pub allocate_all : ℕ → Bytemap → Heap → Heap
  allocate_all zero m h = h
  allocate_all (suc n) m h = (J.malloc (size_of_char (get_byte m n)) (allocate_all n m h)).1

  unfoldable pub apply_metadata : Process Heap → Option (Process Heap)
  apply_metadata s = do
    phase ← get_phase (global_epoch s.config)
    some (record s {
      allocator_logs = replay_allocator_logs phase s.allocator_logs;
      heap = allocate_all (heap_size / cache_line_size) s.bytemap_nvm s.heap;
    })

  -- The two branches of `escort_init`.
  unfoldable pub recover : (ℕ → Bool) → Process Heap → Option (Process Heap)
  recover may_write s = do
    let offset = offset_of s.config
    (plogs', nvm') ← recover_logs offset (global_epoch s.config) s.plogs s.nvm
    let dram' = Recovery.copy may_write (nvm_bytes offset nvm') (heap_size / block_size) s.dram
    s' ← apply_metadata (record s { plogs = plogs'; nvm = nvm'; dram = dram' })
    some (record s' { root_table = get_roottable s'.config; config = reset_thread_num s'.config })

  abbrev pub first_execution : Process Heap → Process Heap
  first_execution s =
      init_roottable (record s { config = store s.config.g_epoch_pointer_addr 2 s.config })

  unfoldable pub escort_init : (ℕ → Bool) → ℕ → Bool → Process Heap → Option (Process Heap)
  escort_init may_write checkpointing_num is_recovery s = do
    s₁ ← init_bitmap s
    let s₂ = init_manager s₁
    s₃ ← if is_recovery then recover may_write s₂ else some (first_execution s₂)
    init_checkpointing_thread checkpointing_num s₃
