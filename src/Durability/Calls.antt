-- ===== src/Durability/Calls.antt =====
-- A call of `mark` as a whole is a run of steps of the system.
use escort.Prelude.{
  ℕ, zero, suc, ◌+◌, ◌-◌, ◌%◌, ◌≤◌, ◌<◌, ◌≡◌, ◌≢◌, refl, ap, ◌∙◌, subst, inl, inr, Bool, false, not,
  ◌||◌, some, update, ==_iff, Option-cases, arith,
}
use escort.Address.{cache_line_size, num_lines, line_addr, add_addr-line, get_index}
use escort.Bitmap.{is_set}
use escort.Epoch.{epoch}
use escort.World.{World, curr_of}
use escort.RedoLog.{RedoLogs}
use escort.Durability.Marks.{mark_line-Effect}
use escort.Userthread.{num_bits_of, mark_line, mark_lines, mark}
use escort.EpochProtocol.{inside}
use escort.Durability.{
  Activity, free, marking, Run, listed, Step, Reach, later, begin_mark, mark_next, end_mark,
}

-- The line of an address begins where the remainder is cut off.
base_of :
    (addr first : ℕ) → get_index addr ≡ some first → addr - addr % cache_line_size ≡ line_addr first
unfolding get_index
base_of addr first h = ground (arith, h)

module _ (L : RedoLogs) (offset n : ℕ) where
  open L use {State}

  -- A state of which only the heap and thread `i` differ.
  pub record After (s : Run State) (i : ℕ) (w : World State) (a : Activity) (t : Run State)
      : Type 0 where
    pub same_sys : t.sys ≡ s.sys
    pub same_phase : t.phase ≡ s.phase
    pub world : t.world ≡ w
    pub own : t.activity i ≡ a
    pub others : (j : ℕ) → i ≢ j → t.activity j ≡ s.activity j

  -- The order that programs see to, for all lines of a region.
  abbrev pub OrderedRegion : ℕ → ℕ → ℕ → Run State → Type 0
  OrderedRegion e first num s =
      epoch e + 1 ≡ epoch s.sys.global_epoch
      → (l : ℕ) → first ≤ l
      → l < first + num
      → is_set (s.world.bitmap (not (curr_of e))) l ≡ false

  module _ (i e first num : ℕ) (bound : i < n) (fits : first + num ≤ num_lines) where
    -- The state after a round of the loop.
    abbrev next : Run State → World State → ℕ → Bool → Run State
    next s w done flag = record s {
      world = w;
      activity = update s.activity i (marking first num (suc done) flag);
    }

    loop :
        (k done l : ℕ) (flag b : Bool) (s : Run State) (w' : World State)
        → num ≡ done + k
        → l ≡ first + done
        → Reach L offset n s
        → s.sys.pc i ≡ inside e
        → s.activity i ≡ marking first num done flag
        → OrderedRegion e first num s
        → mark_lines L k i (curr_of e) (line_addr l) l flag s.world ≡ some (b, w')
        → (t : Run State) × Reach L offset n t × After s i w' (marking first num num b) t
    unfolding mark_lines
    loop zero done l flag b s w' size at r here act ordered h = (
      s,
      r,
      record {
        same_sys = refl;
        same_phase = refl;
        world = ground (arith, h);
        own =
            act
            ∙ ap (λ x. marking first num x flag) (omega (arith, size))
            ∙ ap (marking first num num) (ground (arith, h));
        others = λ j q. refl;
      },
    )
    loop (suc k) done l flag b s w' size at r here act ordered h =
        elim (Option-cases (mark_line L i (curr_of e) (line_addr l) l s.world)) [
          | inl failed ↦ absurd (ground (arith, h, failed))
          | inr ((has_set, w₁), got) ↦
              let st : Step L offset n s (next s w₁ done (flag || has_set)) =
                mark_next i e first num done flag has_set bound here act (omega (arith, size))
                  (λ q. ordered q (first + done) (omega arith) (omega (arith, size)))
                  (subst
                    (λ x. mark_line L i (curr_of e) (line_addr x) x s.world ≡ some (has_set, w₁)) at
                    got) in
              let f = mark_line-Effect L i (curr_of e) (line_addr l) l has_set s.world w₁ got in
              let (t, r', a) =
                loop k (suc done) (suc l) (flag || has_set) b (next s w₁ done (flag || has_set)) w'
                  (omega (arith, size)) (omega (arith, at)) (later r st) here (ground arith)
                  (λ q x lo hi. ground (arith, f.other_bits x, ordered q x lo hi))
                  (subst
                    (λ x.
                      mark_lines L k i (curr_of e) x (suc l) (flag || has_set) w₁ ≡ some (b, w'))
                    (add_addr-line l (omega (arith, size, at, fits))) (ground (arith, h, got))) in
              (
                t,
                r',
                record {
                  same_sys = a.same_sys;
                  same_phase = a.same_phase;
                  world = a.world;
                  own = a.own;
                  others = λ j q. a.others j q ∙ ground (arith, ==_iff i j);
                },
              )
        ]

  -- The loop in a call that returns, and its end.
  record InCall (i e first num : ℕ) (w w' : World State) : Type 0 where
    pub flag : Bool
    pub marked : World State
    pub loop_ends :
        mark_lines L num i (curr_of e) (line_addr first) first false w ≡ some (flag, marked)
    pub last : listed L offset n i (curr_of e) (line_addr first, num) flag marked ≡ w'

  mark-InCall :
      (i addr size first : ℕ) (w w' : World State)
      → get_index addr ≡ some first
      → mark L i addr size w ≡ some w'
      → InCall i (w.thread_epoch i) first (num_bits_of size) w w'
  unfolding mark
  mark-InCall i addr size first w w' at h =
      elim (Option-cases (
        mark_lines L (num_bits_of size) i (curr_of (w.thread_epoch i))
          (addr - addr % cache_line_size) first false w)) [
            | inl failed ↦ absurd (ground (arith, h, at, failed))
            | inr ((b, w₁), got) ↦ record {
              flag = b;
              marked = w₁;
              loop_ends =
                  subst
                    (λ x.
                      mark_lines L (num_bits_of size) i (curr_of (w.thread_epoch i)) x first false w
                      ≡ some (b, w₁))
                    base got;
              last =
                  subst
                    (λ x.
                      listed L offset n i (curr_of (w.thread_epoch i)) (x, num_bits_of size) b w₁
                      ≡ w')
                    base (ground (arith, h, at, got));
            }
          ]
    where
      base : addr - addr % cache_line_size ≡ line_addr first
      base = base_of addr first at

  -- A call of `mark` that returns, on a region in the heap, by a thread that is within an operation and
  -- in no other call, and, if the operation is of the epoch that ends, on lines that the next epoch has not
  -- marked, is a run of steps: from a state that the system can reach it leads to one that it can reach,
  -- with the world that the call leaves and nothing else changed.
  pub mark_reaches :
      (i e addr size first : ℕ) (s : Run State) (w' : World State)
      → i < n
      → get_index addr ≡ some first
      → first + num_bits_of size ≤ num_lines
      → Reach L offset n s
      → s.sys.pc i ≡ inside e
      → s.world.thread_epoch i ≡ e
      → s.activity i ≡ free
      → OrderedRegion e first (num_bits_of size) s
      → mark L i addr size s.world ≡ some w'
      → (t : Run State) × Reach L offset n t × After s i w' free t
  mark_reaches i e addr size first s w' bound at fits r here own idle ordered h =
      let c : InCall i e first (num_bits_of size) s.world w' =
        subst (λ x. InCall i x first (num_bits_of size) s.world w') own
          (mark-InCall i addr size first s.world w' at h) in
      let num : ℕ = num_bits_of size in
      let s₁ : Run State = record s {
        activity = update s.activity i (marking first num 0 false);
      } in
      let (t, r', a) =
        loop i e first num bound fits num 0 first false c.flag s₁ c.marked (omega arith)
          (omega arith) (later r (begin_mark i e first num bound here idle fits)) here
          (ground arith) ordered c.loop_ends in
      (
        record t {
          world = listed L offset n i (curr_of e) (line_addr first, num) c.flag t.world;
          activity = update t.activity i free;
        },
        later r' (end_mark i e first num c.flag bound (ap (λ x. x.pc i) a.same_sys ∙ here) a.own),
        record {
          same_sys = a.same_sys;
          same_phase = a.same_phase;
          world =
              ap (listed L offset n i (curr_of e) (line_addr first, num) c.flag) a.world ∙ c.last;
          own = ground arith;
          others = λ j q. ground (arith, a.others j q, ==_iff i j);
        },
      )
