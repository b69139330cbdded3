-- ===== src/EpochProtocol/Invariant.antt =====
-- No thread is within an operation of an epoch that the checkpointing thread has finished waiting
-- for.
use escort.Prelude.{ℕ, ◌+◌, ◌≤◌, ◌<◌, ◌≡◌, sym, ◌∙◌, ◌⊎◌, inr, true, ==_iff, arith}
use escort.Epoch.{epoch}
use escort.Epoch.Phase.{epoch-lt}
use escort.EpochProtocol.{
  Pc, published, inside, System, Step, load, publish, enter, retry, leave, pass, change_phase,
  advance, init, Reach, start, later,
}

-- The epoch that a thread has published or is in.
abbrev Holds : Pc → ℕ → Type 0
Holds p t = (e : ℕ) → (p ≡ published e) ⊎ (p ≡ inside e) → t ≡ e

pub record Inv (n : ℕ) (s : System) : Type 0 where
  pub started : 2 ≤ epoch s.global_epoch
  pub known : (i e : ℕ) → s.pc i ≡ inside e → s.thread_epoch i ≡ e
  pub stored : (i e : ℕ) → s.pc i ≡ published e → s.thread_epoch i ≡ e
  pub waited : (i e : ℕ) → s.pc i ≡ inside e → s.passed i ≡ true → epoch e ≡ epoch s.global_epoch
  pub recent :
      (i e : ℕ)
      → i < n
      → s.pc i ≡ inside e
      → (epoch e ≡ epoch s.global_epoch) ⊎ (epoch e + 1 ≡ epoch s.global_epoch)

pub idle-Inv : (n e : ℕ) → 2 ≤ epoch e → Inv n (record init { global_epoch = e })
idle-Inv n e h = record {
  started = h;
  known = λ i d q. cc;
  stored = λ i d q. cc;
  waited = λ i d q p. cc;
  recent = λ i d l q. cc;
}

init-Inv : (n : ℕ) → Inv n init
unfolding epoch
init-Inv n = idle-Inv n 2 (omega arith)

-- Every step of a thread or of the checkpointing thread keeps this.
pub Step-Inv : {n : ℕ} {s t : System} → Step n s t → Inv n s → Inv n t
Step-Inv (load i h) v = record {
  started = v.started;
  known = λ j e q. ground (arith, v.known j e);
  stored = λ j e q. ground (arith, v.stored j e);
  waited = λ j e q p. ground (arith, v.waited j e);
  recent = λ j e l q. ground (arith, v.recent j e);
}
Step-Inv (publish i d h) v = record {
  started = v.started;
  known = λ j e q. ground (arith, v.known j e);
  stored = λ j e q. ground (arith, v.stored j e);
  waited = λ j e q p. ground (arith, v.waited j e);
  recent = λ j e l q. ground (arith, v.recent j e);
}
Step-Inv (enter i d h g) v = record {
  started = v.started;
  known = λ j e q. ground (arith, v.known j e, v.stored j d, ==_iff i j);
  stored = λ j e q. ground (arith, v.stored j e);
  waited = λ j e q p. ground (arith, v.waited j e);
  recent = λ j e l q. ground (arith, v.recent j e);
}
Step-Inv (retry i d h g) v = record {
  started = v.started;
  known = λ j e q. ground (arith, v.known j e);
  stored = λ j e q. ground (arith, v.stored j e);
  waited = λ j e q p. ground (arith, v.waited j e);
  recent = λ j e l q. ground (arith, v.recent j e);
}
Step-Inv (leave i d h) v = record {
  started = v.started;
  known = λ j e q. ground (arith, v.known j e);
  stored = λ j e q. ground (arith, v.stored j e);
  waited = λ j e q p. ground (arith, v.waited j e);
  recent = λ j e l q. ground (arith, v.recent j e);
}
Step-Inv {n} {s} (pass i l h) v = record {
  started = v.started;
  known = v.known;
  stored = v.stored;
  waited = λ j e q p. ground (
    arith,
    v.waited j e q,
    v.recent j e,
    v.known j e q,
    v.started,
    epoch-lt s.global_epoch,
    ==_iff i j,
  );
  recent = v.recent;
}
Step-Inv (change_phase d h) v = record {
  started = omega (arith, v.started);
  known = v.known;
  stored = v.stored;
  waited = λ j e q p. v.waited j e q p ∙ sym h;
  recent = λ j e l q. omega (arith, v.recent j e l q);
}
Step-Inv (advance d all h) v = record {
  started = omega (arith, v.started);
  known = v.known;
  stored = v.stored;
  waited = λ j e q p. cc;
  recent = λ j e l q. inr (omega (arith, v.waited j e q (all j l)));
}

Reach-Inv : {n : ℕ} {s : System} → Reach n s → Inv n s
Reach-Inv {n} start = init-Inv n
Reach-Inv (later r st) = Step-Inv st (Reach-Inv r)

-- In every reachable state operations of at most two epochs run: that of the global epoch, and the
-- one before it.
pub two_epochs :
    {n : ℕ} {s : System} (i e : ℕ)
    → Reach n s
    → i < n
    → s.pc i ≡ inside e
    → (epoch e ≡ epoch s.global_epoch) ⊎ (epoch e + 1 ≡ epoch s.global_epoch)
two_epochs i e r l h = (Reach-Inv r).recent i e l h

-- Once the wait has passed every thread, and until the next epoch begins, each operation that runs
-- is of the global epoch: no thread still works in the epoch that is to be logged, nor enters it.
pub wait_complete :
    {n : ℕ} {s : System}
    → Reach n s
    → ((i : ℕ) → i < n → s.passed i ≡ true)
    → (i e : ℕ) → i < n
    → s.pc i ≡ inside e
    → (epoch e ≡ epoch s.global_epoch) × (s.thread_epoch i ≡ e)
wait_complete r all i e l h = let v = Reach-Inv r in (v.waited i e h (all i l), v.known i e h)
