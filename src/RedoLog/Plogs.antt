-- ===== src/RedoLog/Plogs.antt =====
-- The chains of blocks of `Plog` are redo logs in the sense of `RedoLog`.
use escort.Prelude.{
  ℕ, suc, ◌<◌, ◌≡◌, ◌⊎◌, inl, inr, subst, none, some, [], ◌∷◌, ◌++◌, ◌==◌, if◌then◌else◌, ==_iff,
  Bool-cases, arith,
}
use escort.Chain.{contents, room}
use escort.Chain.Valid.{Valid}
use escort.Chain.Push.{Pushed, push_back_cases}
use escort.Chain.Clear.{clear-Cleared, contents-clear}
use escort.Plog.{Plogs, Entry, log_block_num, push_back_and_clwb, clear_log, replay_redo_log}
use escort.Plog.Replay.{replay_redo_log-eq-apply}
use escort.RedoLog.{RedoLogs}

abbrev Keeps : ℕ → Entry → Plogs → Plogs → Type 0
Keeps k e = Pushed log_block_num (λ h. h) k e

abbrev Pushes : ℕ → Entry → Plogs → Type 0
Pushes k e s =
    ((room log_block_num k s ≡ 0) × (push_back_and_clwb k e s ≡ none))
    ⊎ ((s' : Plogs) × (push_back_and_clwb k e s ≡ some s') × Keeps k e s s')

push_cases : (k : ℕ) (e : Entry) (s : Plogs) → Valid log_block_num s → Pushes k e s
unfolding push_back_and_clwb
push_cases k e s v = push_back_cases log_block_num (λ h. h) k s e v (omega arith)

pub pushed :
    (k : ℕ) (e : Entry) (s s' : Plogs)
    → Valid log_block_num s
    → push_back_and_clwb k e s ≡ some s'
    → Keeps k e s s'
pushed k e s s' v h = elim (push_cases k e s v) [
  | inl (full, failed) ↦ cc
  | inr (t, got, kept) ↦ subst (Keeps k e s) (cc) kept
]

pub contents-pushed :
    (k : ℕ) (e : Entry) (s s' : Plogs)
    → Keeps k e s s'
    → (j : ℕ) → contents j s' ≡ (if k == j then contents j s ++ e ∷ [] else contents j s)
contents-pushed k e s s' kept j = elim (Bool-cases (k == j)) [
  | inl same ↦
      rw same (subst (λ i. contents i s' ≡ contents i s ++ e ∷ []) ((==_iff k j).0 same) kept.own)
  | inr other ↦ rw other (kept.others j (λ q. cc ((==_iff k j).1 q)))
]

pub contents-cleared :
    (k : ℕ) (s : Plogs)
    → Valid log_block_num s
    → (j : ℕ) → contents j (clear_log k s) ≡ (if k == j then [] else contents j s)
unfolding clear_log
contents-cleared k s v j = elim (Bool-cases (k == j)) [
  | inl same ↦ rw same (
      subst (λ i. contents i (clear_log k s) ≡ []) ((==_iff k j).0 same)
        (contents-clear log_block_num k s v))
  | inr other ↦ rw other ((clear-Cleared log_block_num k s v).others j (λ q. cc ((==_iff k j).1 q)))
]

pub push-total :
    (k : ℕ) (e : Entry) (s : Plogs)
    → Valid log_block_num s
    → 0 < room log_block_num k s
    → (s' : Plogs) × (push_back_and_clwb k e s ≡ some s')
      × (room log_block_num k s ≡ suc (room log_block_num k s'))
push-total k e s v h = elim (push_cases k e s v) [
  | inl (full, failed) ↦ absurd (omega arith)
  | inr (t, got, kept) ↦ (t, got, kept.filled)
]

pub clear_log-Valid :
    (k : ℕ) (s : Plogs) → Valid log_block_num s → Valid log_block_num (clear_log k s)
unfolding clear_log
clear_log-Valid k s v = (clear-Cleared log_block_num k s v).valid

abbrev pub plogs : RedoLogs
plogs = record {
  State = Plogs;
  Valid = Valid log_block_num;
  push_back_and_clwb = push_back_and_clwb;
  clear = clear_log;
  replay = replay_redo_log;
  contents = contents;
  room = room log_block_num;
  push-Valid = λ k e s s' v h. (pushed k e s s' v h).valid;
  contents-push = λ k e s s' v h. contents-pushed k e s s' (pushed k e s s' v h);
  push_total = push-total;
  clear-Valid = clear_log-Valid;
  contents-clear = contents-cleared;
  replay-eq-apply = replay_redo_log-eq-apply;
}
