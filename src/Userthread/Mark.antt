-- ===== src/Userthread/Mark.antt =====
-- What `mark` marks: the lines that its arguments give, which are all lines of the region unless the
-- region ends in a line more than its size takes from its first byte on.
use escort.Prelude.{
  ℕ, zero, suc, ◌+◌, ◌-◌, ◌*◌, ◌/◌, ◌%◌, ◌^◌, ◌≤◌, ◌<◌, ◌≡◌, ◌≢◌, ◌∙◌, inl, inr, Bool, true, false,
  ◌||◌, ◌&&◌, Option, some, ltb, leb, if◌then◌else◌, >>=-eq-some, Bool-cases, Option-cases, arith,
}
use escort.Address.{cache_line_size, dram_base, add_addr}
use escort.Bitmap
use escort.Bitmap.{is_set}
use escort.World.{World, curr_of}
use escort.RedoLog.{RedoLogs}
use escort.Userthread.{mark_line, mark_lines, mark, num_bits_of}

-- The line of a byte of DRAM.
abbrev pub byte_line : ℕ → ℕ
byte_line a = (a - dram_base) / cache_line_size

module _ (L : RedoLogs) (i : ℕ) (curr : Bool) where
  open L use {State, push_back_and_clwb}

  record Marked (index n : ℕ) (w w' : World State) : Type 0 where
    bits :
        (x : ℕ)
        → is_set (w'.bitmap curr) x
          ≡ (if leb index x && ltb x (index + n) then true else is_set (w.bitmap curr) x)
    same_dram : w'.dram ≡ w.dram
    same_nvm : w'.nvm ≡ w.nvm

  mark_line-Marked :
      (addr index : ℕ) (b : Bool) (w w' : World State)
      → mark_line L i curr addr index w ≡ some (b, w')
      → Marked index 1 w w'
  unfolding mark_line Bitmap.set
  mark_line-Marked addr index b w w' h =
      let pushed =
        Option-cases
          (push_back_and_clwb (suc i) (record { addr = addr; val = w.dram addr }) w.logs) in
      record {
        bits = λ x. ground (arith, Bool-cases curr, pushed);
        same_dram = ground (arith, Bool-cases curr, pushed);
        same_nvm = ground (arith, Bool-cases curr, pushed);
      }

  mark_lines-Marked :
      (n addr index : ℕ) (flag b : Bool) (w w' : World State)
      → mark_lines L n i curr addr index flag w ≡ some (b, w')
      → Marked index n w w'
  unfolding mark_lines
  mark_lines-Marked zero addr index flag b w w' h = record {
    bits = λ x. ground arith;
    same_dram = ground arith;
    same_nvm = ground arith;
  }
  mark_lines-Marked (suc n) addr index flag b w w' h =
      let ((set, w₁), e₁, rest) =
        >>=-eq-some (mark_line L i curr addr index w)
          (λ (b₁, u).
            mark_lines L n i curr (add_addr addr cache_line_size) (suc index) (flag || b₁) u)
          h in
      let first = mark_line-Marked addr index set w w₁ e₁ in
      let others =
        mark_lines-Marked n (add_addr addr cache_line_size) (suc index) (flag || set) b w₁ w'
          rest in
      record {
        bits = λ x. ground (arith, first.bits x, others.bits x);
        same_dram = others.same_dram ∙ first.same_dram;
        same_nvm = others.same_nvm ∙ first.same_nvm;
      }

module _ (L : RedoLogs) where
  open L use {State}

  -- What a successful `mark` does in the bitmap of the epoch of its thread.
  pub record MarkedRegion (i addr size : ℕ) (w w' : World State) : Type 0 where
    pub in_operation : w.thread_epoch i ≢ 0
    pub bits :
        (x : ℕ)
        → (let curr = curr_of (w.thread_epoch i) in
            is_set (w'.bitmap curr) x ≡ (
              if leb (byte_line addr) x && ltb x (byte_line addr + num_bits_of size)
              then true
              else is_set (w.bitmap curr) x))
    pub same_dram : w'.dram ≡ w.dram
    pub same_nvm : w'.nvm ≡ w.nvm

  -- A `mark` that returns was called within an operation. In the bitmap of that operation's epoch it
  -- has set the bits of as many lines as the size takes, from the line of the first byte on, and no
  -- other bit; neither heap has changed.
  pub mark-MarkedRegion :
      (i addr size : ℕ) (w w' : World State)
      → mark L i addr size w ≡ some w'
      → MarkedRegion i addr size w w'
  unfolding mark
  mark-MarkedRegion i addr size w w' h = elim (Option-cases loop) [
    | inl failed ↦ absurd (ground arith)
    | inr ((b, w₁), e) ↦
        let m =
          mark_lines-Marked L i curr (num_bits_of size) base (byte_line addr) false b w w₁ e in
        record {
          in_operation = ground arith;
          bits = λ x. ground (arith, m.bits x);
          same_dram = ground (arith, m.same_dram);
          same_nvm = ground (arith, m.same_nvm);
        }
  ]
    where
      curr : Bool
      curr = curr_of (w.thread_epoch i)

      base : ℕ
      base = addr - addr % cache_line_size

      loop : Option (Bool × World State)
      loop = mark_lines L (num_bits_of size) i curr base (byte_line addr) false w

  -- Where the offset of the first byte in its line and the size together fit into the lines that the
  -- size takes, every byte of the region lies in a marked line after `mark`.
  pub mark_covers :
      (i addr size : ℕ) (w w' : World State) (a : ℕ)
      → mark L i addr size w ≡ some w'
      → dram_base ≤ addr
      → size < 2 ^ 63
      → addr % cache_line_size + size ≤ (size + 63) / 64 * cache_line_size
      → addr ≤ a
      → a < addr + size
      → is_set (w'.bitmap (curr_of (w.thread_epoch i))) (byte_line a) ≡ true
  mark_covers i addr size w w' a h low small fits from to =
      let m = mark-MarkedRegion i addr size w w' h in ground (arith, m.bits (byte_line a))

  -- In the other case the region ends in one line more, and `mark` leaves the bit of that line as it
  -- was: `mark` counts lines by the size alone.
  pub mark_misses_last_line :
      (i addr size : ℕ) (w w' : World State)
      → mark L i addr size w ≡ some w'
      → dram_base ≤ addr
      → size < 2 ^ 63
      → (size + 63) / 64 * cache_line_size < addr % cache_line_size + size
      → (let curr = curr_of (w.thread_epoch i) in
          let last = addr + size - 1 in
          is_set (w'.bitmap curr) (byte_line last) ≡ is_set (w.bitmap curr) (byte_line last))
  mark_misses_last_line i addr size w w' h low small crosses =
      let m = mark-MarkedRegion i addr size w w' h in
      ground (arith, m.bits (byte_line (addr + size - 1)))
