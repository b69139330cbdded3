-- ===== src/Interface/Restart.antt =====
-- From `escort_init` of src/Escort.cpp to `escort_finalize` and back: DRAM after a restart.
use escort.Prelude.{
  ℕ, zero, suc, ◌*◌, ◌≤◌, ◌≡◌, refl, ap, Bool, false, not, bool_clash, List, [], ◌∷◌, count, length,
  arith,
}
use escort.Chain.{Block, room}
use escort.Epoch.{epoch}
use escort.Plog
use escort.Plog.{Plogs, Entry, Memory, log_block_num}
use escort.World.{World, curr_of}
use escort.RedoLog.Plogs.{plogs}
use escort.Snapshot.Visits.{Registered}
use escort.Durability.{IsInitial}
use escort.Startup.{Process, global_epoch, plog_blocks}
use escort.Startup.Init.{run_of}
use escort.Interface.Working.{Working}

module _ (c : Bool) where
  abbrev none_listed : ℕ → Bool → List (ℕ × ℕ)
  none_listed i b = []

  none-Registered : (ctxs : List ℕ) → ((i : ℕ) → count i ctxs ≤ 1) → Registered c ctxs none_listed
  none-Registered [] once = tt
  none-Registered (i ∷ is) once =
      (ground (arith, once i), tt, none-Registered is (λ j. ground (arith, once j)))

-- A system that starts is at the end of an epoch of which nothing is marked.
pub start-Working :
    {H : Type 0} (offset n : ℕ) (ctxs : List ℕ) (t : Process H)
    → IsInitial plogs offset n (run_of t)
    → ((i : ℕ) → count i ctxs ≤ 1)
    → (c : Bool) → curr_of (global_epoch t.config) ≡ c
    → Working plogs offset ctxs c (λ _. false) (run_of t).world
unfolding epoch
start-Working offset n ctxs t v once c parity = record {
  boundary = record {
    valid = v.logs_valid;
    idle = v.unmarked (not c);
    empty = λ k m. v.logs_empty k;
    clean = λ l b clear. v.heaps_agree l b;
    planned = λ l b. absurd (bool_clash (v.unmarked c l) b);
  };
  registered = none-Registered c ctxs once;
  started = λ z. absurd (omega (arith, v.epoch_started, ap epoch z));
  parity = parity;
  threads = λ i. refl;
}

length-blocks : (n : ℕ) → length (Plog.blocks n) ≡ n
length-blocks zero = refl
length-blocks (suc n) = ap suc (length-blocks n)

-- Both starts leave the same room in each log.
pub new_room :
    (k : ℕ) (area : ℕ → Block (Unit {0}) Entry)
    → room log_block_num k (Plog.management plog_blocks area) ≡ 1024 * log_block_num
unfolding Plog.management
new_room k area = omega (arith, length-blocks plog_blocks)
