-- ===== src/EpochHeap.antt =====
-- The stores of a run of the system of Durability (src/userthreadctx_t.cpp, src/checkpointing.cpp), and the
-- heap, an array of lines, after those by the operations of some epochs: no logs, bitmaps or phases.
use escort.Prelude.{
  refl, ℕ, ◌<◌, ◌≤◌, ◌≡◌, Option, List, [], ◌∷◌, All, ltb, if◌then◌else◌, update, arith,
}
use escort.Plog.{Cacheline}

-- A store to a line, by an operation of the epoch with that counter.
pub record Store : Type 0 where
  pub counter : ℕ
  pub line : ℕ
  pub val : Cacheline

-- The heap after stores, the last of which is the head of the list.
abbrev pub heap_after : (ℕ → Cacheline) → List Store → ℕ → Cacheline
heap_after heap [] = heap
heap_after heap (w ∷ ws) = update (heap_after heap ws) w.line w.val

-- The stores by operations of the epochs before `g`.
abbrev pub stores_before : ℕ → List Store → List Store
stores_before g [] = []
stores_before g (w ∷ ws) =
    let rest = stores_before g ws in if ltb w.counter g then w ∷ rest else rest

pub stores_before-All :
    (g : ℕ) (ws : List Store) → All (λ w. w.counter < g) ws → stores_before g ws ≡ ws
stores_before-All g [] a = refl
stores_before-All g (w ∷ ws) a = ground (arith, a.0, stores_before-All g ws a.1)

pub later_bound :
    (g g' : ℕ) (ws : List Store)
    → g ≤ g'
    → All (λ w. w.counter < g) ws
    → All (λ w. w.counter < g') ws
later_bound g g' [] h a = tt
later_bound g g' (w ∷ ws) h a = (omega (arith, a.0), later_bound g g' ws h a.1)

-- The heap that programs see, that of an epoch that has ended and is not yet durable, and the durable one.
pub record Heaps : Type 0 where
  pub current : ℕ → Cacheline
  pub closing : Option (ℕ → Cacheline)
  pub durable : ℕ → Cacheline
