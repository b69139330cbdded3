-- ===== src/Durability/Marks.antt =====
-- What one round of the loop of `mark` does to the world, whatever phase it is.
use escort.Prelude.{
  ℕ, suc, ◌≡◌, inl, inr, ◌⊎◌, Bool, true, false, not, some, ◌==◌, if◌then◌else◌, update, Bool-cases,
  Option-cases, ==_iff, arith,
}
use escort.Bitmap
use escort.Bitmap.{is_set}
use escort.World.{World, put}
use escort.RedoLog.{RedoLogs}
use escort.Userthread.{mark_line}

module _ (L : RedoLogs) where
  open L use {State, push_back_and_clwb}

  abbrev pub with_bit : Bool → ℕ → World State → World State
  with_bit c l w = record w {
    bitmap = put c (record (w.bitmap c) { bitmap = update (w.bitmap c).bitmap l true }) w.bitmap;
  }

  pub record Effect (c : Bool) (l : ℕ) (has_set : Bool) (w w' : World State) : Type 0 where
    pub own_bits :
        (x : ℕ) → is_set (w'.bitmap c) x ≡ (if l == x then true else is_set (w.bitmap c) x)
    pub was_set : (is_set (w.bitmap c) l ≡ true) ⊎ (has_set ≡ true)
    pub other_bits :
        (x : ℕ) → is_set (w'.bitmap (not c)) x ≡ true → is_set (w.bitmap (not c)) x ≡ true
    pub same_dram : w'.dram ≡ w.dram
    pub same_nvm : w'.nvm ≡ w.nvm
    pub same_list : w'.addrlist ≡ w.addrlist

  pub mark_line-Effect :
      (i : ℕ) (c : Bool) (addr l : ℕ) (has_set : Bool) (w w' : World State)
      → mark_line L i c addr l w ≡ some (has_set, w')
      → Effect c l has_set w w'
  unfolding mark_line Bitmap.set
  mark_line-Effect i c addr l has_set w w' h =
      let pushed =
        Option-cases
          (push_back_and_clwb (suc i) (record { addr = addr; val = w.dram addr }) w.logs) in
      record {
        own_bits = λ x. ground (arith, Bool-cases c, pushed, ==_iff l x);
        was_set = ground (arith, Bool-cases c, pushed);
        other_bits = λ x b. ground (arith, Bool-cases c, pushed, ==_iff l x);
        same_dram = ground (arith, Bool-cases c, pushed);
        same_nvm = ground (arith, Bool-cases c, pushed);
        same_list = ground (arith, Bool-cases c, pushed);
      }

  -- Where the other epoch has not marked the line, no entry is made.
  pub mark_line_alone :
      (i : ℕ) (c : Bool) (addr l : ℕ) (has_set : Bool) (w w' : World State)
      → is_set (w.bitmap (not c)) l ≡ false
      → mark_line L i c addr l w ≡ some (has_set, w')
      → (w' ≡ w) ⊎ (w' ≡ with_bit c l w)
  unfolding mark_line Bitmap.set
  mark_line_alone i c addr l has_set w w' alone h = elim (Bool-cases (is_set (w.bitmap c) l)) [
    | inl marked ↦ inl (ground arith)
    | inr new ↦ inr (ground (arith, Bool-cases c))
  ]
