-- ===== src/Durability/Clearing.antt =====
-- The steps of the update of NVM after the replay: the logs are cleared one by one, and the round ends.
use escort.Prelude.{
  ℕ, ◌<◌, ◌≡◌, refl, sym, ap, ◌∙◌, subst, inl, inr, Bool, true, false, not, List, [], ◌∷◌, ◌==◌,
  if◌then◌else◌, count, All, Bool-cases, arith,
}
use escort.Address.{num_lines}
use escort.Bitmap.{is_set}
use escort.Plog.{Cacheline, Entry}
use escort.RedoLog.{RedoLogs}
use escort.Snapshot
use escort.Snapshot.{nvm_addr, log_ids, IsOf, holds, Kept, stored, pending, logged}
use escort.Snapshot.Update.{Boundary}
use escort.Snapshot.Cycle.{prev_clear}
use escort.EpochHeap.{Heaps}
use escort.Durability.{threads, resting, replaying, clearing, Run}
use escort.Durability.Invariant.{AllListed, Open, Updating, ToReplay, ToClear, Simulates}
use escort.Durability.Phases.{twice, phase_at}

module _ (L : RedoLogs) (offset n : ℕ) (s : Run L.State) (h : Heaps)
    (v : Simulates L offset n s h) where
  open L use {State}

  all_stored :
      (snapshot : ℕ → Cacheline)
      → ToReplay L offset n snapshot [] s.world.nvm s.world.logs
      → (l : ℕ) → l < num_lines
      → s.world.nvm (nvm_addr offset l) ≡ snapshot l
  all_stored snapshot r l b = elim (r.lines l b) [
    | inl q ↦ q
    | inr (j, m, q) ↦ absurd (omega (arith, m))
  ]

  pub begin_clear-Simulates :
      s.phase ≡ replaying []
      → Simulates L offset n (record s { phase = clearing (log_ids (threads n)) }) h
  begin_clear-Simulates now =
      let (p, snapshot, u, r) = phase_at L offset n s h v (replaying []) now in
      record {
        protocol_holds = v.protocol_holds;
        bounded = v.bounded;
        current = v.current;
        in_phase = (
          p,
          snapshot,
          record {
            parity = u.parity;
            inv = u.inv;
            not_closing = u.not_closing;
            passed = u.passed;
            lists = u.lists;
            cover = u.cover;
            covers = u.covers;
            durable = u.durable;
          },
          record { lines = all_stored snapshot r; logs_empty = λ k m. inr m },
        );
      }

  module _ (k : ℕ) (rest : List ℕ) (now : s.phase ≡ clearing (k ∷ rest)) where
    module _ (p : Bool) (snapshot : ℕ → Cacheline)
        (inv : Snapshot.Inv L offset (threads n) p snapshot s.world [])
        (c : ToClear L offset n snapshot (k ∷ rest) s.world.nvm s.world.logs) where
      cleared-entries :
          (j : ℕ)
          → 0 < count j (log_ids (threads n))
          → All (IsOf snapshot) (L.contents j (L.clear k s.world.logs))
      cleared-entries j m =
          subst (All (IsOf snapshot)) (sym (L.contents-clear k s.world.logs inv.valid j))
            (either (k == j) (L.contents j s.world.logs) (inv.entries j m))
        where
          either :
              (b : Bool) (es : List Entry)
              → All (IsOf snapshot) es
              → All (IsOf snapshot) (if b then [] else es)
          either true es a = tt
          either false es a = a

      cleared-Inv :
          Snapshot.Inv L offset
            (threads n)
            p
            snapshot
            (record s.world { logs = L.clear k s.world.logs })
            []
      cleared-Inv = record {
        valid = L.clear-Valid k s.world.logs inv.valid;
        unwritten = inv.unwritten;
        apart = inv.apart;
        planned = inv.planned;
        entries = cleared-entries;
        kept = λ l b. stored (c.lines l b);
      }

      rest_logs : ToClear L offset n snapshot rest s.world.nvm (L.clear k s.world.logs)
      rest_logs = record {
        lines = c.lines;
        logs_empty = λ j m. elim (c.logs_empty j m) [
          | inl q ↦ inl (ground (arith, L.contents-clear k s.world.logs inv.valid j, q))
          | inr q ↦ elim (Bool-cases (k == j)) [
            | inl here ↦ inl (L.contents-clear k s.world.logs inv.valid j ∙ rw here refl)
            | inr other ↦ inr (ground arith)
          ]
        ];
      }

    pub clear_log-Simulates :
        Simulates L offset n
          (record s {
            world = record s.world { logs = L.clear k s.world.logs };
            phase = clearing rest;
          })
          h
    clear_log-Simulates =
        let (p, snapshot, u, c) = phase_at L offset n s h v (clearing (k ∷ rest)) now in
        record {
          protocol_holds = v.protocol_holds;
          bounded = v.bounded;
          current = v.current;
          in_phase = (
            p,
            snapshot,
            record {
              parity = u.parity;
              inv = cleared-Inv p snapshot u.inv c;
              not_closing = u.not_closing;
              passed = u.passed;
              lists = u.lists;
              cover = u.cover;
              covers = u.covers;
              durable = u.durable;
            },
            rest_logs p snapshot u.inv c,
          );
        }

  module _ (p : Bool) (snapshot : ℕ → Cacheline) (u : Updating L offset n p snapshot s h)
      (c : ToClear L offset n snapshot [] s.world.nvm s.world.logs) where
    -- The next epoch starts where this one is durable.
    next-Boundary : Boundary L offset (threads n) (not p) s.world u.cover
    next-Boundary = record {
      valid = u.inv.valid;
      idle = λ l.
          ap (λ b. is_set (s.world.bitmap b) l) (twice p)
          ∙ prev_clear L offset (threads n) p snapshot s.world u.inv l;
      empty = λ k m. elim (c.logs_empty k m) [ inl q ↦ q | inr q ↦ absurd (omega (arith, q)) ];
      clean = λ l b q. c.lines l b ∙ sym (u.inv.unwritten l b q);
      planned = u.covers;
    }

    next-Open : Open L offset n (record s { phase = resting }) h
    next-Open = record {
      todo = u.cover;
      boundary =
          subst (λ b. Boundary L offset (threads n) b s.world u.cover) (sym u.parity) next-Boundary;
      not_closing = u.not_closing;
      passed = u.passed;
      lists =
          subst (λ b. AllListed L offset n b (record s { phase = resting })) (sym u.parity) u.lists;
      durable = λ l b. c.lines l b ∙ u.durable l b;
    }

  pub end_round-Simulates :
      s.phase ≡ clearing [] → Simulates L offset n (record s { phase = resting }) h
  end_round-Simulates now =
      let (p, snapshot, u, c) = phase_at L offset n s h v (clearing []) now in
      record {
        protocol_holds = v.protocol_holds;
        bounded = v.bounded;
        current = v.current;
        in_phase = next-Open p snapshot u c;
      }
