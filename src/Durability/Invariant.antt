-- ===== src/Durability/Invariant.antt =====
-- How a running system relates to the heaps that it promises, phase by phase.
use escort.Prelude.{
  ℕ, ◌+◌, ◌≤◌, ◌<◌, ◌≡◌, refl, sym, ap, ◌∙◌, inl, inr, ◌⊎◌, Bool, true, false, not, none, some,
  List, [], count,
}
use escort.Address.{num_lines, line_addr}
use escort.Bitmap.{is_set}
use escort.Epoch.{epoch}
use escort.Plog.{Cacheline, Memory}
use escort.World.{curr_of}
use escort.RedoLog.{RedoLogs}
use escort.Snapshot
use escort.Snapshot.{nvm_addr, log_ids}
use escort.Snapshot.Update.{Boundary}
use escort.EpochProtocol.{System, inside}
use escort.EpochProtocol.Invariant.{Inv}
use escort.EpochHeap.{Heaps}
use escort.Durability.{
  threads, marking, Phase, resting, waiting, logging, replaying, clearing, Run, Ordered,
}
use escort.Durability.Lines.{lines_of}
use escort.Durability.Late.{Copied}
use escort.Durability.Listed.{Listed}
use escort.Durability.Parity.{curr_of-same, curr_of-next}

-- The bitmap of the epoch that the global epoch word tells.
abbrev pub cur : System → Bool
cur sys = curr_of sys.global_epoch

abbrev pub AllPassed : ℕ → System → Type 0
AllPassed n sys = (i : ℕ) → i < n → sys.passed i ≡ true

module _ (L : RedoLogs) (offset n : ℕ) where
  open L use {State}

  abbrev pub AllListed : Bool → Run State → Type 0
  AllListed c s = Listed n c s.world.bitmap s.world.addrlist s.sys.pc s.activity

  abbrev pub IsDurable : Memory → Heaps → Type 0
  IsDurable nvm h = (l : ℕ) → l < num_lines → nvm (nvm_addr offset l) ≡ h.durable l

  -- Between two rounds.
  pub record Open (s : Run State) (h : Heaps) : Type 0 where
    pub todo : List ℕ
    pub boundary : Boundary L offset (threads n) (cur s.sys) s.world todo
    pub not_closing : h.closing ≡ none
    pub passed : AllPassed n s.sys
    pub lists : AllListed (cur s.sys) s
    pub durable : IsDurable s.world.nvm h

  -- While an epoch, of parity `p`, is made durable.
  pub record Closing (p : Bool) (snapshot : ℕ → Cacheline) (todo : List ℕ) (s : Run State)
      (h : Heaps) : Type 0 where
    pub parity : cur s.sys ≡ not p
    pub inv : Snapshot.Inv L offset (threads n) p snapshot s.world todo
    pub is_closing : h.closing ≡ some snapshot
    pub lists : AllListed (not p) s
    -- lines that have all those marked in the new epoch
    pub cover : List ℕ
    pub covers : (l : ℕ) → is_set (s.world.bitmap (not p)) l ≡ true → 0 < count l cover
    pub durable : IsDurable s.world.nvm h

  pub record Waiting (p : Bool) (snapshot : ℕ → Cacheline) (todo : List ℕ) (s : Run State)
      (h : Heaps) : Type 0 where
    pub closing : Closing p snapshot todo s h
    pub copied : Copied L offset (threads n) p s.world
    pub old_lists : AllListed p s

  -- While its lines are written to NVM: from here on the snapshot is what a crash leaves.
  pub record Updating (p : Bool) (snapshot : ℕ → Cacheline) (s : Run State) (h : Heaps)
      : Type 0 where
    pub parity : cur s.sys ≡ not p
    pub inv : Snapshot.Inv L offset (threads n) p snapshot s.world []
    pub not_closing : h.closing ≡ none
    pub passed : AllPassed n s.sys
    pub lists : AllListed (not p) s
    pub cover : List ℕ
    pub covers : (l : ℕ) → is_set (s.world.bitmap (not p)) l ≡ true → 0 < count l cover
    pub durable : (l : ℕ) → l < num_lines → snapshot l ≡ h.durable l

  -- Each line is in NVM, or in a log that is still to be replayed.
  pub record ToReplay (snapshot : ℕ → Cacheline) (ids : List ℕ) (nvm : Memory) (logs : State)
      : Type 0 where
    pub within : (k : ℕ) → 0 < count k ids → 0 < count k (log_ids (threads n))
    pub lines :
        (l : ℕ)
        → l < num_lines
        → (nvm (nvm_addr offset l) ≡ snapshot l)
          ⊎ ((k : ℕ) × (0 < count k ids) × (Snapshot.holds l (L.contents k logs) ≡ true))

  -- All lines are in NVM, and the logs are empty but those still to be cleared.
  pub record ToClear (snapshot : ℕ → Cacheline) (ids : List ℕ) (nvm : Memory) (logs : State)
      : Type 0 where
    pub lines : (l : ℕ) → l < num_lines → nvm (nvm_addr offset l) ≡ snapshot l
    pub logs_empty :
        (k : ℕ) → 0 < count k (log_ids (threads n)) → (L.contents k logs ≡ []) ⊎ (0 < count k ids)

  abbrev pub InPhase : Run State → Heaps → Phase → Type 0
  InPhase s h resting = Open s h
  InPhase s h waiting =
      (p : Bool) × (snapshot : ℕ → Cacheline) × (todo : List ℕ) × Waiting p snapshot todo s h
  InPhase s h (logging ts) =
      (p : Bool) × (snapshot : ℕ → Cacheline) × Closing p snapshot (lines_of ts) s h
      × AllPassed n s.sys
  InPhase s h (replaying ids) =
      (p : Bool) × (snapshot : ℕ → Cacheline) × Updating p snapshot s h
      × ToReplay snapshot ids s.world.nvm s.world.logs
  InPhase s h (clearing ids) =
      (p : Bool) × (snapshot : ℕ → Cacheline) × Updating p snapshot s h
      × ToClear snapshot ids s.world.nvm s.world.logs

  pub record Simulates (s : Run State) (h : Heaps) : Type 0 where
    pub protocol_holds : Inv n s.sys
    pub bounded :
        (i first num_bits done : ℕ) (flag : Bool)
        → s.activity i ≡ marking first num_bits done flag
        → first + num_bits ≤ num_lines
    pub current : (l : ℕ) → l < num_lines → h.current l ≡ s.world.dram (line_addr l)
    pub in_phase : InPhase s h s.phase

  module _ (s : Run State) (v : Inv n s.sys) (i e : ℕ) (bound : i < n)
      (here : s.sys.pc i ≡ inside e) where
    -- Where every thread has been waited for, an operation is of the current epoch.
    pub passed-parity : AllPassed n s.sys → curr_of e ≡ cur s.sys
    passed-parity all = curr_of-same e s.sys.global_epoch (v.waited i e here (all i bound))

    -- In the wait it may be of the one before, and then minds the order.
    pub waiting_cases :
        (p : Bool) (l : ℕ)
        → cur s.sys ≡ not p
        → Ordered L offset n s e l
        → ((epoch e ≡ epoch s.sys.global_epoch) × (curr_of e ≡ not p))
          ⊎ ((epoch e + 1 ≡ epoch s.sys.global_epoch)
              × (curr_of e ≡ p)
              × (is_set (s.world.bitmap (not p)) l ≡ false))
    waiting_cases p l parity ordered = elim (v.recent i e bound here) [
      | inl same ↦ inl (same, curr_of-same e s.sys.global_epoch same ∙ parity)
      | inr before ↦
          let old : curr_of e ≡ p =
            curr_of-next e s.sys.global_epoch before ∙ ap not parity ∙ twice p in
          inr (before, old, ap (λ c. is_set (s.world.bitmap (not c)) l) (sym old) ∙ ordered before)
    ]
      where
        twice : (b : Bool) → not (not b) ≡ b
        twice true = refl
        twice false = refl

    pub waiting-parity :
        (p : Bool) (l : ℕ)
        → cur s.sys ≡ not p
        → Ordered L offset n s e l
        → (curr_of e ≡ not p) ⊎ ((curr_of e ≡ p) × (is_set (s.world.bitmap (not p)) l ≡ false))
    waiting-parity p l parity ordered = elim (waiting_cases p l parity ordered) [
      | inl (same, new) ↦ inl new
      | inr (before, old, alone) ↦ inr (old, alone)
    ]
