-- ===== src/Startup/Open.antt =====
-- `escort_init` from the path of a file on, and its use with `escort_is_recovery`.
use escort.Prelude.{
  ℕ, ◌+◌, ◌/◌, ◌≤◌, ◌≡◌, not, ltb, ◌&&◌, if◌then◌else◌, assert, ◌>>◌, Bool, true, Option, some,
  List, ◌++◌, ◌>>=◌,
}
use escort.Address.{cache_line_size, heap_size}
use escort.Allocator.{Jemalloc}
use escort.NvmConfig.{Config, create_area}
use escort.NvmConfig.Open.{
  Os, NvmConfig, Area, redolog_suffix, allocatorlog_suffix, create_redolog_area,
  create_allocatorlog_area, open_config,
}
use escort.Startup.{Process, escort_init, bytemap_nvm_size, redolog_size, allocatorlog_size}

-- The process with its file open.
abbrev pub with_config : {H : Type 0} → NvmConfig → Process H → Process H
with_config c s = record s { config = c.config }

-- The blocks of both logs, whose words `init_manager` writes, lie within their areas.
abbrev pub logs_fit : NvmConfig → Bool
logs_fit c =
    not (ltb c.redolog_area.1 redolog_size) && not (ltb c.allocatorlog_area.1 allocatorlog_size)

-- The map of sizes, which `apply_metadata` reads on a recovery, lies within the file: it is the second
-- block that `init_bitmap` has taken behind the counters.
abbrev pub sizes_fit : Config → Bool
sizes_fit c = not (
    ltb (c.start_address + c.nvm_size)
      (c.tmp_space + bytemap_nvm_size + heap_size / cache_line_size))

module _ (J : Jemalloc) (os : Os) (nvm_path : List ℕ) (may_write : ℕ → Bool) where
  open J use {Heap}

  -- The whole of `escort_init`. An access beyond the areas of the logs or, on a recovery, beyond the
  -- file stops the process.
  unfoldable pub escort_init_path :
      ℕ → Bool → Option NvmConfig → Process Heap → Option (Process Heap)
  unfolding open_config
  escort_init_path checkpointing_num is_recovery nvm_config s = do
    c ← open_config os nvm_path nvm_config
    assert (logs_fit c)
    assert (if is_recovery then sizes_fit c.config else true)
    escort_init J may_write checkpointing_num is_recovery (with_config c s)

  module _ (fd start : ℕ) (redolog allocatorlog : Area) (s : Process Heap)
      (opens : os.open_file nvm_path ≡ some fd)
      (maps : os.mmap (os.file_size nvm_path) fd ≡ some start)
      (redo : create_redolog_area os (nvm_path ++ redolog_suffix) ≡ some redolog)
      (alloc : create_allocatorlog_area os (nvm_path ++ allocatorlog_suffix) ≡ some allocatorlog)
      (large : heap_size + 136 + heap_size / cache_line_size ≤ os.file_size nvm_path)
      (redo_large : redolog_size ≤ redolog.1)
      (alloc_large : allocatorlog_size ≤ allocatorlog.1) where
    abbrev opened : NvmConfig
    opened = record {
      config = create_area start (os.file_size nvm_path) heap_size (os.words fd);
      redolog_area = redolog;
      allocatorlog_area = allocatorlog;
    }
