-- ===== src/Interface/Marks.antt =====
-- `mark` of src/userthreadctx_t.cpp where no line is marked in the bitmap of the other epoch.
use escort.Prelude.{
  ℕ, zero, suc, ◌+◌, ◌-◌, ◌%◌, ◌≤◌, ◌≡◌, ◌≢◌, ◌⊎◌, refl, ap, ◌∙◌, inl, inr, Bool, true, false, not,
  ◌||◌, ◌&&◌, some, if◌then◌else◌, update, ltb, leb, Bool-cases, ==_iff, arith,
}
use escort.Address.{cache_line_size, dram_base, line_addr, add_addr, get_index}
use escort.Bitmap
use escort.Bitmap.{is_set}
use escort.World.{World, put, curr_of}
use escort.RedoLog.{RedoLogs}
use escort.Userthread.{num_bits_of, copy_on_write, mark_line, mark_lines, mark}
use escort.Userthread.Mark.{byte_line}
use escort.Interface.Regions.{listed_too}

module _ (L : RedoLogs) (i : ℕ) (c : Bool) where
  open L use {State}

  -- What the loop leaves, from line `index` on over `n` lines.
  record Alone (index n : ℕ) (has_set : Bool) (w w' : World State) : Type 0 where
    bits :
        (x : ℕ)
        → is_set (w'.bitmap c) x
          ≡ (if leb index x && ltb x (index + n) then true else is_set (w.bitmap c) x)
    others : (x : ℕ) → is_set (w'.bitmap (not c)) x ≡ false
    news : has_set ≡ false → (x : ℕ) → is_set (w'.bitmap c) x ≡ is_set (w.bitmap c) x
    same_dram : w'.dram ≡ w.dram
    same_nvm : w'.nvm ≡ w.nvm
    same_logs : w'.logs ≡ w.logs
    same_list : w'.addrlist ≡ w.addrlist
    same_epoch : w'.global_epoch ≡ w.global_epoch
    same_threads : w'.thread_epoch ≡ w.thread_epoch

  mark_line-Alone :
      (addr index : ℕ) (w : World State)
      → ((x : ℕ) → is_set (w.bitmap (not c)) x ≡ false)
      → (r : Bool × World State) × (mark_line L i c addr index w ≡ some r) × Alone index 1 r.0 w r.1
  unfolding mark_line copy_on_write Bitmap.set
  mark_line-Alone addr index w clear = elim (Bool-cases (is_set (w.bitmap c) index)) [
    | inl marked ↦ (
      (false, w),
      ground arith,
      record {
        bits = λ x. ground (arith, ==_iff index x);
        others = clear;
        news = λ h x. refl;
        same_dram = refl;
        same_nvm = refl;
        same_logs = refl;
        same_list = refl;
        same_epoch = refl;
        same_threads = refl;
      },
    )
    | inr new ↦ (
      (
        true,
        record w {
          bitmap =
              put c (record (w.bitmap c) { bitmap = update (w.bitmap c).bitmap index true })
                w.bitmap;
        },
      ),
      ground (arith, clear index),
      record {
        bits = λ x. ground (arith, Bool-cases c, ==_iff index x);
        others = λ x. ground (arith, Bool-cases c, clear x);
        news = λ h x. cc;
        same_dram = refl;
        same_nvm = refl;
        same_logs = refl;
        same_list = refl;
        same_epoch = refl;
        same_threads = refl;
      },
    )
  ]

  mark_lines-Alone :
      (n addr index : ℕ) (flag : Bool) (w : World State)
      → ((x : ℕ) → is_set (w.bitmap (not c)) x ≡ false)
      → (b : Bool) × (w' : World State) × (mark_lines L n i c addr index flag w
          ≡ some (flag || b, w'))
        × Alone index n b w w'
  unfolding mark_lines
  mark_lines-Alone zero addr index flag w clear = (
    false,
    w,
    ground (arith, Bool-cases flag),
    record {
      bits = λ x. ground arith;
      others = clear;
      news = λ h x. refl;
      same_dram = refl;
      same_nvm = refl;
      same_logs = refl;
      same_list = refl;
      same_epoch = refl;
      same_threads = refl;
    },
  )
  mark_lines-Alone (suc n) addr index flag w clear =
      let ((set, w₁), e₁, a) = mark_line-Alone addr index w clear in
      let (b, w₂, e₂, rest) =
        mark_lines-Alone n (add_addr addr cache_line_size) (suc index) (flag || set) w₁ a.others in
      (
        set || b,
        w₂,
        ground (arith, e₁, e₂, Bool-cases flag, Bool-cases set),
        record {
          bits = λ x. ground (arith, a.bits x, rest.bits x);
          others = rest.others;
          news = λ h x.
              rest.news (ground (arith, h, Bool-cases set)) x
              ∙ a.news (ground (arith, h, Bool-cases set)) x;
          same_dram = rest.same_dram ∙ a.same_dram;
          same_nvm = rest.same_nvm ∙ a.same_nvm;
          same_logs = rest.same_logs ∙ a.same_logs;
          same_list = rest.same_list ∙ a.same_list;
          same_epoch = rest.same_epoch ∙ a.same_epoch;
          same_threads = rest.same_threads ∙ a.same_threads;
        },
      )

module _ (L : RedoLogs) where
  open L use {State}

  -- A call of `mark` in an operation of parity `c`: it sets the bits of the region, and if it has set one
  -- puts the region on the list of the thread.
  pub record MarkedAlone (i : ℕ) (c : Bool) (l n : ℕ) (w w' : World State) : Type 0 where
    pub bits :
        (x : ℕ)
        → is_set (w'.bitmap c) x
          ≡ (if leb l x && ltb x (l + n) then true else is_set (w.bitmap c) x)
    pub others : (x : ℕ) → is_set (w'.bitmap (not c)) x ≡ false
    pub same_dram : w'.dram ≡ w.dram
    pub same_nvm : w'.nvm ≡ w.nvm
    pub same_logs : w'.logs ≡ w.logs
    pub same_epoch : w'.global_epoch ≡ w.global_epoch
    pub same_threads : w'.thread_epoch ≡ w.thread_epoch
    pub lists :
        ((w'.addrlist ≡ w.addrlist) × ((x : ℕ) → is_set (w'.bitmap c) x ≡ is_set (w.bitmap c) x))
        ⊎ (w'.addrlist ≡ listed_too i c (line_addr l, n) w.addrlist)

  pub mark-MarkedAlone :
      (i addr size : ℕ) (w : World State)
      → w.thread_epoch i ≢ 0
      → dram_base ≤ addr
      → ((x : ℕ) → is_set (w.bitmap (not (curr_of (w.thread_epoch i)))) x ≡ false)
      → (w' : World State) × (mark L i addr size w ≡ some w')
        × MarkedAlone i (curr_of (w.thread_epoch i)) (byte_line addr) (num_bits_of size) w w'
  unfolding mark get_index
  mark-MarkedAlone i addr size w inside low clear =
      let c : Bool = curr_of (w.thread_epoch i) in
      let base : ℕ = addr - addr % cache_line_size in
      let (b, w₁, e, a) =
        mark_lines-Alone L i c (num_bits_of size) base (byte_line addr) false w clear in
      elim (Bool-cases b) [
        | inr none_set ↦ (
          w₁,
          ground (arith, e, ==_iff (w.thread_epoch i) 0),
          record {
            bits = a.bits;
            others = a.others;
            same_dram = a.same_dram;
            same_nvm = a.same_nvm;
            same_logs = a.same_logs;
            same_epoch = a.same_epoch;
            same_threads = a.same_threads;
            lists = inl (a.same_list, a.news none_set);
          },
        )
        | inl some_set ↦ (
          record w₁ { addrlist = listed_too i c (base, num_bits_of size) w₁.addrlist },
          ground (arith, e, ==_iff (w.thread_epoch i) 0),
          record {
            bits = a.bits;
            others = a.others;
            same_dram = a.same_dram;
            same_nvm = a.same_nvm;
            same_logs = a.same_logs;
            same_epoch = a.same_epoch;
            same_threads = a.same_threads;
            lists = inr (
                ap (λ b. listed_too i c (b, num_bits_of size) w₁.addrlist) (base_of addr low)
                ∙ ap (λ t. listed_too i c (line_addr (byte_line addr), num_bits_of size) t)
                    a.same_list);
          },
        )
      ]
    where
      base_of :
          (addr : ℕ) → dram_base ≤ addr → addr - addr % cache_line_size ≡ line_addr (byte_line addr)
      base_of addr low = omega arith
