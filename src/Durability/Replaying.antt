-- ===== src/Durability/Replaying.antt =====
-- The steps of the update of NVM: from the decision that the epoch is durable, log by log, to the end
-- of the round.
use escort.Prelude.{
  ℕ, ◌<◌, ◌≡◌, refl, ◌∙◌, inl, inr, Bool, none, some, some, List, [], ◌∷◌, ◌==◌, if◌then◌else◌, All,
  ==_iff, Bool-cases, arith,
}
use escort.Address.{num_lines}
use escort.Epoch.{epoch}
use escort.Plog.{Cacheline, Memory}
use escort.RedoLog.{RedoLogs}
use escort.Snapshot
use escort.Snapshot.{nvm_addr, log_ids, IsOf, holds, Kept, stored, pending, logged}
use escort.Snapshot.Entries.{apply-at}
use escort.EpochProtocol.{change_phase}
use escort.EpochProtocol.Invariant.{Step-Inv}
use escort.EpochHeap.{Heaps}
use escort.Durability.{threads, logging, replaying, Run, with_sys}
use escort.Durability.Frame.{frame-Inv}
use escort.Durability.Parity.{curr_of-same}
use escort.Durability.Invariant.{ToReplay, Simulates}
use escort.Durability.Steps.{untouched}
use escort.Durability.Phases.{phase_at}

module _ (L : RedoLogs) (offset n : ℕ) where
  open L use {State}

  -- What a replay of one log leaves at a line.
  replayed :
      (snapshot : ℕ → Cacheline) (k l : ℕ) (logs : State) (nvm : Memory)
      → l < num_lines
      → All (IsOf snapshot) (L.contents k logs)
      → L.replay offset k logs nvm (nvm_addr offset l)
        ≡ (if holds l (L.contents k logs) then snapshot l else nvm (nvm_addr offset l))
  replayed snapshot k l logs nvm bound good =
      rw (L.replay-eq-apply offset k logs nvm)
        (apply-at snapshot offset l (L.contents k logs) nvm bound good)

  module _ (s : Run State) (h : Heaps) (v : Simulates L offset n s h) where
    module _ (e : ℕ) (now : s.phase ≡ logging []) (same : epoch e ≡ epoch s.sys.global_epoch) where
      abbrev started : Run State
      started =
          with_sys L offset n s (record s.sys { global_epoch = e })
            (replaying (log_ids (threads n)))

      all_lines :
          (p : Bool) (snapshot : ℕ → Cacheline)
          → Snapshot.Inv L offset (threads n) p snapshot s.world []
          → ToReplay L offset n snapshot (log_ids (threads n)) s.world.nvm s.world.logs
      all_lines p snapshot inv = record {
        within = λ k m. m;
        lines = λ l b. elim (inv.kept l b) [
          | stored q ↦ inl q
          | pending q ↦ absurd (omega (arith, inv.planned l q))
          | logged k m q ↦ inr (k, m, q)
        ];
      }

      -- From here on a crash leaves the epoch that ended.
      pub begin_update-Simulates :
          (ended : ℕ → Cacheline) × (h.closing ≡ some ended)
          × Simulates L offset n started (record h { closing = none; durable = ended })
      begin_update-Simulates =
          let (p, snapshot, c, all) = phase_at L offset n s h v (logging []) now in
          (
            snapshot,
            c.is_closing,
            record {
              protocol_holds = Step-Inv (change_phase e same) v.protocol_holds;
              bounded = v.bounded;
              current = v.current;
              in_phase = (
                p,
                snapshot,
                record {
                  parity = curr_of-same e s.sys.global_epoch same ∙ c.parity;
                  inv =
                      frame-Inv L offset (threads n) p s.world started.world
                        (untouched L offset n refl refl refl refl p) snapshot [] c.inv;
                  not_closing = refl;
                  passed = all;
                  lists = c.lists;
                  cover = c.cover;
                  covers = c.covers;
                  durable = λ l b. refl;
                },
                all_lines p snapshot c.inv,
              );
            },
          )

    module _ (k : ℕ) (rest : List ℕ) (now : s.phase ≡ replaying (k ∷ rest)) where
      abbrev nvm' : Memory
      nvm' = L.replay offset k s.world.logs s.world.nvm

      module _ (p : Bool) (snapshot : ℕ → Cacheline)
          (inv : Snapshot.Inv L offset (threads n) p snapshot s.world [])
          (r : ToReplay L offset n snapshot (k ∷ rest) s.world.nvm s.world.logs) where
        at :
            (l : ℕ)
            → l < num_lines
            → nvm' (nvm_addr offset l) ≡ (
                if holds l (L.contents k s.world.logs)
                then snapshot l
                else s.world.nvm (nvm_addr offset l))
        at l b =
            replayed snapshot k l s.world.logs s.world.nvm b
              (inv.entries k (r.within k (ground (arith, ==_iff k k))))

        still :
            (l : ℕ)
            → l < num_lines
            → s.world.nvm (nvm_addr offset l) ≡ snapshot l
            → nvm' (nvm_addr offset l) ≡ snapshot l
        still l b q = ground (arith, at l b, q)

        replayed-Inv :
            Snapshot.Inv L offset (threads n) p snapshot (record s.world { nvm = nvm' }) []
        replayed-Inv = record {
          valid = inv.valid;
          unwritten = inv.unwritten;
          apart = inv.apart;
          planned = inv.planned;
          entries = inv.entries;
          kept = λ l b. elim (inv.kept l b) [
            | stored q ↦ stored (still l b q)
            | pending q ↦ pending q
            | logged j m q ↦ logged j m q
          ];
        }

        rest_lines : ToReplay L offset n snapshot rest nvm' s.world.logs
        rest_lines = record {
          within = λ j m. r.within j (ground arith);
          lines = λ l b. elim (r.lines l b) [
            | inl q ↦ inl (still l b q)
            | inr (j, m, q) ↦ elim (Bool-cases (k == j)) [
              | inl here ↦ inl (at l b ∙ rw ((==_iff k j).0 here) (rw q refl))
              | inr other ↦ inr (j, ground arith, q)
            ]
          ];
        }

      pub replay_log-Simulates :
          Simulates L offset n
            (record s { world = record s.world { nvm = nvm' }; phase = replaying rest })
            h
      replay_log-Simulates =
          let (p, snapshot, u, r) = phase_at L offset n s h v (replaying (k ∷ rest)) now in
          record {
            protocol_holds = v.protocol_holds;
            bounded = v.bounded;
            current = v.current;
            in_phase = (
              p,
              snapshot,
              record {
                parity = u.parity;
                inv = replayed-Inv p snapshot u.inv r;
                not_closing = u.not_closing;
                passed = u.passed;
                lists = u.lists;
                cover = u.cover;
                covers = u.covers;
                durable = u.durable;
              },
              rest_lines p snapshot u.inv r,
            );
          }
