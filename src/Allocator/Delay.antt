-- ===== src/Allocator/Delay.antt =====
-- The blocks that `free` has put off, and their way back to jemalloc at the end of an epoch.
use escort.Prelude.{ℕ, ◌<◌, ◌≡◌, Bool, not, List, [], ◌∷◌, ◌++◌, count}
use escort.World.{prev_of}
use escort.Allocator.{Jemalloc, AllocWorld, free_all}

-- The addresses put off by the threads, in the order of the loops.
abbrev pub pending : Bool → List ℕ → (ℕ → Bool → List ℕ) → List ℕ
pending prev [] delayed = []
pending prev (i ∷ is) delayed = delayed i prev ++ pending prev is delayed

-- No thread is registered twice.
abbrev pub IsDistinct : List ℕ → Type 0
IsDistinct [] = Unit
IsDistinct (i ∷ is) = (count i is ≡ 0) × IsDistinct is

module _ (J : Jemalloc) where
  open J use {Heap}

  -- What `deallocator_t::dealloc` does.
  pub record Deallocated (ctxs : List ℕ) (w w' : AllocWorld Heap) : Type 0 where
    pub freed : w'.heap ≡ free_all J (pending (prev_of w.global_epoch) ctxs w.delayed) w.heap
    pub emptied : (i : ℕ) → 0 < count i ctxs → w'.delayed i (prev_of w.global_epoch) ≡ []
    pub others :
        (i : ℕ)
        → w'.delayed i (not (prev_of w.global_epoch)) ≡ w.delayed i (not (prev_of w.global_epoch))
