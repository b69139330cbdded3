-- ===== src/Interface/Working.antt =====
-- The state at which an epoch can end, and the parts of a call of src/Escort.cpp.
use escort.Prelude.{
  ℕ, suc, ◌+◌, ◌-◌, ◌%◌, ◌≤◌, ◌<◌, ◌≡◌, ◌≢◌, ◌⊎◌, refl, sym, ap, ◌∙◌, subst, inl, inr, Bool, true,
  false, List, [], ◌∷◌, if◌then◌else◌, update, count, length, Bool-cases, ==_iff, arith,
}
use escort.Address.{cache_line_size, dram_base, num_lines, line_addr}
use escort.Bitmap.{is_set}
use escort.Plog.{Memory}
use escort.World.{World, curr_of}
use escort.RedoLog.{RedoLogs}
use escort.Userthread.Mark.{byte_line}
use escort.Snapshot.{nvm_addr}
use escort.Snapshot.Update.{Boundary}
use escort.Snapshot.Visits.{visits, Registered}
use escort.Interface.{set_byte, assign}
use escort.Interface.Regions.{
  listed_too, visits_keep, visits_gain, length-visits, listed_too-Registered,
}
use escort.Interface.Marks.{MarkedAlone}

-- A store changes no line but those of its bytes.
assign_elsewhere :
    (marked : ℕ → Bool) (bs : List ℕ) (addr : ℕ) (dram : Memory) (l : ℕ)
    → dram_base ≤ addr
    → ((a : ℕ) → addr ≤ a → a < addr + length bs → marked (byte_line a) ≡ true)
    → marked l ≡ false
    → assign addr bs dram (line_addr l) ≡ dram (line_addr l)
assign_elsewhere marked [] addr dram l low all other = refl
assign_elsewhere marked (b ∷ bs) addr dram l low all other =
    assign_elsewhere marked bs (suc addr)
      (update dram line (set_byte (addr % cache_line_size) b (dram line))) l (omega arith)
      (λ a from to. all a (omega arith) (omega arith)) other
    ∙ apart
  where
    line : ℕ
    line = addr - addr % cache_line_size

    differs : byte_line addr ≢ l
    differs h = absurd (ground (arith, h, all addr (omega arith) (omega arith)))

    apart :
        update dram line (set_byte (addr % cache_line_size) b (dram line)) (line_addr l)
        ≡ dram (line_addr l)
    apart = ground (arith, differs, ==_iff line (line_addr l))

module _ (L : RedoLogs) (offset : ℕ) (ctxs : List ℕ) (c : Bool) where
  open L use {State}

  -- A state at which the epoch can end, with the threads within operations.
  pub record Working (inside : ℕ → Bool) (w : World State) : Type 0 where
    pub boundary : Boundary L offset ctxs c w (visits c ctxs w.addrlist)
    pub registered : Registered c ctxs w.addrlist
    pub started : w.global_epoch ≢ 0
    pub parity : curr_of w.global_epoch ≡ c
    pub threads : (i : ℕ) → w.thread_epoch i ≡ (if inside i then w.global_epoch else 0)

  -- What a run of calls leaves as it was.
  pub record Worked (inside : ℕ → Bool) (lines : ℕ) (w w' : World State) : Type 0 where
    pub working : Working inside w'
    pub same_nvm : w'.nvm ≡ w.nvm
    pub same_logs : w'.logs ≡ w.logs
    pub same_epoch : w'.global_epoch ≡ w.global_epoch
    pub visited : length (visits c ctxs w'.addrlist) ≤ length (visits c ctxs w.addrlist) + lines

  module _ (inside : ℕ → Bool) (w : World State) (v : Working inside w) where
    -- `begin_op` and `end_op` move one thread's epoch.
    pub moved-Working :
        (i : ℕ) (b : Bool) (e : ℕ)
        → e ≡ (if b then w.global_epoch else 0)
        → Worked (update inside i b) 0 w (record w { thread_epoch = update w.thread_epoch i e })
    moved-Working i b e h = record {
      working = record {
        boundary = record {
          valid = v.boundary.valid;
          idle = v.boundary.idle;
          empty = v.boundary.empty;
          clean = v.boundary.clean;
          planned = v.boundary.planned;
        };
        registered = v.registered;
        started = v.started;
        parity = v.parity;
        threads = λ j. ground (arith, v.threads j);
      };
      same_nvm = refl;
      same_logs = refl;
      same_epoch = refl;
      visited = omega arith;
    }

    pub inside_epoch : (i : ℕ) → inside i ≡ true → w.thread_epoch i ≡ w.global_epoch
    inside_epoch i h = ground (arith, v.threads i)

    -- The region of a `mark` that copies nothing.
    pub marked-Worked :
        (i l n : ℕ) (w₁ : World State)
        → 0 < count i ctxs
        → l + n ≤ num_lines
        → MarkedAlone L i c l n w w₁
        → Worked inside n w w₁
    marked-Worked i l n w₁ member fits m = record {
      working = record {
        boundary = record {
          valid = subst L.Valid (sym m.same_logs) v.boundary.valid;
          idle = m.others;
          empty = λ k h. ap (L.contents k) m.same_logs ∙ v.boundary.empty k h;
          clean = λ x b clear.
              ap (λ f. f (nvm_addr offset x)) m.same_nvm
              ∙ v.boundary.clean x b (ground (arith, m.bits x))
              ∙ sym (ap (λ f. f (line_addr x)) m.same_dram);
          planned = λ x b. planned x b (m.lists);
        };
        registered = elim m.lists [
          | inl (same, bits) ↦ subst (Registered c ctxs) (sym same) v.registered
          | inr more ↦
              subst (Registered c ctxs) (sym more)
                (listed_too-Registered c w.addrlist i l n ctxs fits v.registered)
        ];
        started = subst (λ e. e ≢ 0) (sym m.same_epoch) v.started;
        parity = ap curr_of m.same_epoch ∙ v.parity;
        threads = λ j.
            ap (λ f. f j) m.same_threads
            ∙ v.threads j
            ∙ ap (λ e. if inside j then e else 0) (sym m.same_epoch);
      };
      same_nvm = m.same_nvm;
      same_logs = m.same_logs;
      same_epoch = m.same_epoch;
      visited = elim m.lists [
        | inl (same, bits) ↦ omega (arith, ap (λ t. length (visits c ctxs t)) same)
        | inr more ↦ omega (
          arith,
          ap (λ t. length (visits c ctxs t)) more,
          length-visits c w.addrlist i l n ctxs v.registered,
        )
      ];
    }
      where
        planned :
            (x : ℕ)
            → is_set (w₁.bitmap c) x ≡ true
            → ((w₁.addrlist ≡ w.addrlist)
                × ((y : ℕ) → is_set (w₁.bitmap c) y ≡ is_set (w.bitmap c) y))
              ⊎ (w₁.addrlist ≡ listed_too i c (line_addr l, n) w.addrlist)
            → 0 < count x (visits c ctxs w₁.addrlist)
        planned x b (inl (same, bits)) =
            subst (λ t. 0 < count x (visits c ctxs t)) (sym same)
              (v.boundary.planned x (sym (bits x) ∙ b))
        planned x b (inr more) =
            subst (λ t. 0 < count x (visits c ctxs t)) (sym more)
              (elim (Bool-cases (is_set (w.bitmap c) x)) [
                | inl old ↦
                    omega (arith, v.boundary.planned x old, visits_keep c w.addrlist i l n x ctxs)
                | inr new ↦
                    visits_gain c w.addrlist i l n x ctxs member (ground (arith, m.bits x))
                      (ground (arith, m.bits x))
              ])

  -- A store to marked lines.
  pub stored-Worked :
      (inside : ℕ → Bool) (lines addr : ℕ) (val : List ℕ) (w w₁ : World State)
      → dram_base ≤ addr
      → ((a : ℕ) → addr ≤ a → a < addr + length val → is_set (w₁.bitmap c) (byte_line a) ≡ true)
      → Worked inside lines w w₁
      → Worked inside lines w (record w₁ { dram = assign addr val w₁.dram })
  stored-Worked inside lines addr val w w₁ low all r =
      let b = r.working.boundary in
      record {
        working = record {
          boundary = record {
            valid = b.valid;
            idle = b.idle;
            empty = b.empty;
            clean = λ x h clear.
                b.clean x h clear
                ∙ sym (assign_elsewhere (is_set (w₁.bitmap c)) val addr w₁.dram x low all clear);
            planned = b.planned;
          };
          registered = r.working.registered;
          started = r.working.started;
          parity = r.working.parity;
          threads = r.working.threads;
        };
        same_nvm = r.same_nvm;
        same_logs = r.same_logs;
        same_epoch = r.same_epoch;
        visited = r.visited;
      }
