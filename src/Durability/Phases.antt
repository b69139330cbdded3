-- ===== src/Durability/Phases.antt =====
-- The steps of the checkpointing thread from one phase to the next.
use escort.Prelude.{
  ℕ, ◌+◌, ◌<◌, ◌≡◌, ◌≢◌, refl, sym, ap, ◌∙◌, subst, inl, inr, ◌⊎◌, Bool, true, false, not, some,
  List, [], ◌∷◌, update, count, All, Bool-cases, bool_clash, arith,
}
use escort.Address.{num_lines, line_addr}
use escort.Addrlist.{Addrlist}
use escort.Bitmap.{is_set}
use escort.Epoch.{epoch}
use escort.Plog.{Cacheline}
use escort.World.{World, curr_of, put}
use escort.RedoLog.{RedoLogs}
use escort.Checkpoint.{log_line}
use escort.Snapshot
use escort.Snapshot.{log_ids}
use escort.Snapshot.Steps
use escort.EpochProtocol
use escort.EpochProtocol.{System, inside, change_phase}
use escort.EpochProtocol.Invariant.{Step-Inv}
use escort.EpochHeap.{Heaps}
use escort.Durability.{
  threads, free, Task, visit_line, clear_list, tasks, Phase, resting, waiting, logging, Run,
  with_sys,
}
use escort.Durability.Lines.{lines_of, threads_member, tasks_member}
use escort.Durability.Listed.{Listed-protocol}
use escort.Durability.Frame.{frame-Inv, Boundary-Inv-agrees, Visit, log_line-Visit, pc_kept}
use escort.Durability.Parity.{curr_of-same, curr_of-next}
use escort.Durability.Invariant.{cur, AllPassed, Open, Closing, Waiting, InPhase, Simulates}
use escort.Durability.Steps.{frame-Closing, untouched}

pub twice : (b : Bool) → not (not b) ≡ b
twice true = refl
twice false = refl

not_of : (a p : Bool) → a ≡ not p → not a ≡ p
not_of a p h = ap not h ∙ twice p

no_bool : (p : Bool) → p ≢ not p
no_bool p h = ground (arith, Bool-cases p)

module _ (L : RedoLogs) (offset n : ℕ) (s : Run L.State) (h : Heaps)
    (v : Simulates L offset n s h) where
  open L use {State}

  pub phase_at : (ph : Phase) → s.phase ≡ ph → InPhase L offset n s h ph
  phase_at ph same = subst (InPhase L offset n s h) same v.in_phase

  module _ (t : System) (resting_now : s.phase ≡ resting) (st : EpochProtocol.Step n s.sys t)
      (rises : epoch t.global_epoch ≡ epoch s.sys.global_epoch + 1) where
    flipped : cur t ≡ not (cur s.sys)
    flipped =
        sym
          (not_of (cur s.sys) (cur t) (curr_of-next s.sys.global_epoch t.global_epoch (sym rises)))

    stays : (i : ℕ) → (t.pc i ≡ s.sys.pc i) ⊎ (s.activity i ≡ free)
    stays i = inl (ap (λ f. f i) (pc_kept st rises))

    begun :
        (o : Open L offset n s h)
        → Waiting L offset n
            (cur s.sys)
            h.current
            o.todo
            (with_sys L offset n s t waiting)
            (record h { closing = some h.current })
    begun o = record {
      closing = record {
        parity = flipped;
        inv =
            frame-Inv L offset (threads n) (cur s.sys) s.world
              (with_sys L offset n s t waiting).world
              (untouched L offset n refl refl refl refl (cur s.sys)) h.current o.todo
              (Boundary-Inv-agrees L offset (threads n) (cur s.sys) s.world o.todo h.current
                o.boundary v.current);
        is_closing = refl;
        lists = λ l b. absurd (bool_clash (o.boundary.idle l) b);
        cover = [];
        covers = λ l b. absurd (bool_clash (o.boundary.idle l) b);
        durable = o.durable;
      };
      copied = λ k m. subst (All _) (sym (o.boundary.empty k m)) tt;
      old_lists =
          Listed-protocol n (cur s.sys) s.world.bitmap s.world.bitmap s.world.addrlist
            s.world.addrlist s.sys.pc t.pc s.activity (λ l b. b) (λ i. refl) stays o.lists;
    }

    pub advance-Simulates :
        Simulates L offset n
          (with_sys L offset n s t waiting)
          (record h { closing = some h.current })
    advance-Simulates =
        let o = phase_at resting resting_now in
        record {
          protocol_holds = Step-Inv st v.protocol_holds;
          bounded = v.bounded;
          current = v.current;
          in_phase = (cur s.sys, h.current, o.todo, begun o);
        }

  module _ (e : ℕ) (all : AllPassed n s.sys) (same : epoch e ≡ epoch s.sys.global_epoch) where
    abbrev phased : Phase → Run State
    phased ph = with_sys L offset n s (record s.sys { global_epoch = e }) ph

    same_parity : curr_of e ≡ cur s.sys
    same_parity = curr_of-same e s.sys.global_epoch same

    -- No operation of the old epoch is left, so its lines are all on the lists.
    planned :
        (p : Bool) (snapshot : ℕ → Cacheline) (todo : List ℕ)
        → Waiting L offset n p snapshot todo s h
        → (l : ℕ) → is_set (s.world.bitmap p) l ≡ true
        → 0 < count l (lines_of (tasks (not (curr_of e)) (threads n) s.world.addrlist))
    planned p snapshot todo w l b =
        let parity : not (curr_of e) ≡ p = not_of (curr_of e) p (same_parity ∙ w.closing.parity) in
        subst (λ c. 0 < count l (lines_of (tasks c (threads n) s.world.addrlist))) (sym parity)
          (elim (w.old_lists l b) [
            | inl (i, r, m) ↦
                tasks_member p (threads n) s.world.addrlist i l (threads_member n i r) m
            | inr (i, r, g) ↦ absurd (
                no_bool p (
                  sym g.parity
                  ∙ curr_of-same g.e s.sys.global_epoch
                      (v.protocol_holds.waited i g.e g.is_inside (all i r))
                  ∙ w.closing.parity))
          ])

    begun_log :
        (p : Bool) (snapshot : ℕ → Cacheline) (todo todo' : List ℕ) (ph : Phase)
        → Closing L offset n p snapshot todo s h
        → ((l : ℕ) → is_set (s.world.bitmap p) l ≡ true → 0 < count l todo')
        → Closing L offset n p snapshot todo' (phased ph) h
    begun_log p snapshot todo todo' ph c plan = record {
      parity = same_parity ∙ c.parity;
      inv =
          frame-Inv L offset (threads n) p s.world (phased ph).world
            (untouched L offset n refl refl refl refl p) snapshot todo'
            (record {
              valid = c.inv.valid;
              unwritten = c.inv.unwritten;
              apart = c.inv.apart;
              planned = plan;
              entries = c.inv.entries;
              kept = c.inv.kept;
            });
      is_closing = c.is_closing;
      lists = c.lists;
      cover = c.cover;
      covers = c.covers;
      durable = c.durable;
    }

    phased-Simulates :
        (ph : Phase) → InPhase L offset n (phased ph) h ph → Simulates L offset n (phased ph) h
    phased-Simulates ph q = record {
      protocol_holds = Step-Inv (change_phase e same) v.protocol_holds;
      bounded = v.bounded;
      current = v.current;
      in_phase = q;
    }

    pub begin_log-Simulates :
        s.phase ≡ waiting
        → Simulates L offset n
            (phased (logging (tasks (not (curr_of e)) (threads n) s.world.addrlist)))
            h
    begin_log-Simulates now =
        let (p, snapshot, todo, w) = phase_at waiting now in
        phased-Simulates (logging (tasks (not (curr_of e)) (threads n) s.world.addrlist))
          (p, snapshot, begun_log p snapshot todo _ _ w.closing (planned p snapshot todo w), all)

  module _ (rest : List Task) where
    pub visit-Simulates :
        (w : World State) (l : ℕ)
        → s.phase ≡ logging (visit_line l ∷ rest)
        → l < num_lines
        → log_line L (not (curr_of s.sys.global_epoch)) (line_addr l) l s.world ≡ some w
        → Simulates L offset n (record s { world = w; phase = logging rest }) h
    visit-Simulates w l now bound eq =
        let (p, snapshot, c, all) = phase_at (logging (visit_line l ∷ rest)) now in
        let eq' : log_line L p (line_addr l) l s.world ≡ some w =
          subst (λ b. log_line L b (line_addr l) l s.world ≡ some w) (not_of (cur s.sys) p c.parity)
            eq in
        let seen : Visit L offset (threads n) p s.world w =
          log_line-Visit L offset (threads n) p l s.world w eq' in
        record {
          protocol_holds = v.protocol_holds;
          bounded = v.bounded;
          current = λ x b. v.current x b ∙ sym (ap (λ m. m (line_addr x)) seen.same_dram);
          in_phase = (
            p,
            snapshot,
            record {
              parity = c.parity;
              inv = Snapshot.Steps.Step-Inv L offset (threads n) p (Snapshot.visit bound eq') c.inv;
              is_closing = c.is_closing;
              lists =
                  Listed-protocol n (not p) s.world.bitmap w.bitmap s.world.addrlist w.addrlist
                    s.sys.pc s.sys.pc s.activity (λ x b. sym (seen.same_bits x) ∙ b)
                    (λ i. ap (λ f. f i (not p)) seen.same_list) (λ i. inl refl) c.lists;
              cover = c.cover;
              covers = λ x b. c.covers x (sym (seen.same_bits x) ∙ b);
              durable =
                  λ x b. ap (λ m. m (Snapshot.nvm_addr offset x)) seen.same_nvm ∙ c.durable x b;
            },
            all,
          );
        }

    pub clear-Simulates :
        (i : ℕ)
        → s.phase ≡ logging (clear_list i ∷ rest)
        → Simulates L offset n
            (record s {
              world = record s.world {
                addrlist =
                    update s.world.addrlist i
                      (put (not (curr_of s.sys.global_epoch)) [] (s.world.addrlist i));
              };
              phase = logging rest;
            })
            h
    clear-Simulates i now =
        let (p, snapshot, c, all) = phase_at (logging (clear_list i ∷ rest)) now in
        let lists : (ℕ → Bool → Addrlist) =
          update s.world.addrlist i
            (put (not (curr_of s.sys.global_epoch)) [] (s.world.addrlist i)) in
        let others : ((j : ℕ) → lists j (not p) ≡ s.world.addrlist j (not p)) =
          λ j. ground (arith, c.parity, Bool-cases p) in
        record {
          protocol_holds = v.protocol_holds;
          bounded = v.bounded;
          current = v.current;
          in_phase = (
            p,
            snapshot,
            frame-Closing L offset n s _ h (untouched L offset n refl refl refl refl) refl p
                snapshot (lines_of rest)
                (Listed-protocol n (not p) s.world.bitmap s.world.bitmap s.world.addrlist lists
                  s.sys.pc s.sys.pc s.activity (λ l b. b) others (λ j. inl refl) c.lists)
                c,
            all,
          );
        }
