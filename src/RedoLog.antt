-- ===== src/RedoLog.antt =====
-- What the user threads and the checkpointing thread need of their redo logs: the operations of
-- `Plog` as they call them, and the laws that `RedoLog/Plogs` proves of the chains of blocks.
pub mod Plogs
use escort.Prelude.{
  ℕ, zero, suc, ◌≤◌, ◌<◌, ◌≡◌, Option, some, List, [], ◌∷◌, ◌++◌, ◌==◌, if◌then◌else◌,
}
use escort.Plog.{Entry, Memory}
use escort.Plog.Replay.{apply}

pub record RedoLogs : Type 1 where
  pub State : Type 0
  pub Valid : State → Type 0
  pub push_back_and_clwb : ℕ → Entry → State → Option State
  pub clear : ℕ → State → State
  pub replay : ℕ → ℕ → State → Memory → Memory
  -- The abstract view: each log is a list, and has room for so many entries.
  pub contents : ℕ → State → List Entry
  pub room : ℕ → State → ℕ
  pub push-Valid :
      (k : ℕ) (e : Entry) (s s' : State) → Valid s → push_back_and_clwb k e s ≡ some s' → Valid s'
  pub contents-push :
      (k : ℕ) (e : Entry) (s s' : State)
      → Valid s
      → push_back_and_clwb k e s ≡ some s'
      → (j : ℕ) → contents j s' ≡ (if k == j then contents j s ++ e ∷ [] else contents j s)
  pub push_total :
      (k : ℕ) (e : Entry) (s : State)
      → Valid s
      → 0 < room k s
      → (s' : State) × (push_back_and_clwb k e s ≡ some s') × (room k s ≡ suc (room k s'))
  pub clear-Valid : (k : ℕ) (s : State) → Valid s → Valid (clear k s)
  pub contents-clear :
      (k : ℕ) (s : State)
      → Valid s
      → (j : ℕ) → contents j (clear k s) ≡ (if k == j then [] else contents j s)
  pub replay-eq-apply :
      (offset k : ℕ) (s : State) (nvm : Memory)
      → replay offset k s nvm ≡ apply offset (contents k s) nvm
