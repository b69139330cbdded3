-- ===== src/Objects.antt =====
-- Objects on the persistent heap, `pnew` and `pdelete` of src/Escort.hpp, where the thread is
-- registered. The constructor and the destructor are the caller's.
pub mod Rounding
use escort.Prelude.{ℕ, ◌+◌, ◌*◌, ◌/◌, ◌%◌, Option, some, ◌==◌, if◌then◌else◌}
use escort.Allocator.{Jemalloc, AllocWorld, malloc_with_create_log, free_with_create_log}

abbrev pub escort_cacheline_size : ℕ
escort_cacheline_size = 64

abbrev pub object_size_of : ℕ → ℕ
object_size_of sizeof =
    if sizeof % escort_cacheline_size == 0
    then sizeof
    else (sizeof / escort_cacheline_size + 1) * escort_cacheline_size

module _ (J : Jemalloc) where
  open J use {Heap}

  unfoldable pub pnew : ℕ → ℕ → AllocWorld Heap → Option (ℕ × AllocWorld Heap)
  pnew i sizeof w = malloc_with_create_log J i (object_size_of sizeof) w

  unfoldable pub pdelete : ℕ → ℕ → ℕ → AllocWorld Heap → Option (AllocWorld Heap)
  pdelete i sizeof obj w =
      if sizeof % escort_cacheline_size == 0
      then some w
      else free_with_create_log J i obj (object_size_of sizeof) w
