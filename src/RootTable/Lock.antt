-- ===== src/RootTable/Lock.antt =====
-- The lock of a bucket of the root table, src/roottable_t.hpp (`Bucket::lock`, `Bucket::unlock`). The
-- compare-and-exchange does not fail where the values agree.
use escort.Prelude.{ℕ, zero, suc, ◌≡◌, refl, Bool, true, false, Option, none, some, if◌then◌else◌}

-- `_lock.compare_exchange_weak(expected, desired)`: on a failure it stores the value it found in
-- `expected`.
pub record Exchange : Type 0 where
  pub ok : Bool
  pub held : Bool
  pub expected : Bool

unfoldable pub compare_exchange : Bool → Bool → Bool → Exchange
compare_exchange true true desired = record { ok = true; held = desired; expected = true }
compare_exchange false false desired = record { ok = true; held = desired; expected = false }
compare_exchange true false desired = record { ok = false; held = true; expected = true }
compare_exchange false true desired = record { ok = false; held = false; expected = false }

-- The loop of `lock`; `none` is a loop that still runs.
unfoldable pub lock_from : ℕ → Bool → Bool → Option Bool
lock_from zero held expected = none
lock_from (suc rounds) held expected =
    let x = compare_exchange held expected true in
    let rest = lock_from rounds x.held x.expected in if x.ok then some x.held else rest

unfoldable pub lock : ℕ → Bool → Option Bool
lock rounds held = lock_from rounds held false

-- `none` is `DEBUG_ERROR`.
unfoldable pub unlock : Bool → Option Bool
unlock held = let x = compare_exchange held true false in if x.ok then some x.held else none

-- `lock` returns within two rounds whether or not a thread holds the lock, so that two threads can
-- hold it; of the two calls of `unlock` that then follow the second one fails.
pub lock_excludes_nobody :
    (rounds : ℕ) (held : Bool)
    → (lock (suc (suc rounds)) held ≡ some true)
      × (unlock true ≡ some false)
      × (unlock false ≡ none)
unfolding lock lock_from compare_exchange unlock
lock_excludes_nobody rounds true = (refl, refl, refl)
lock_excludes_nobody rounds false = (refl, refl, refl)
