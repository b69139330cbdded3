-- ===== src/Userthread/Total.antt =====
-- `mark` within an operation runs to its end, given room in the redo log of its thread.
use escort.Prelude.{
  ℕ, zero, suc, ◌-◌, ◌%◌, ◌/◌, ◌≤◌, ◌<◌, ◌≡◌, ◌≢◌, refl, ap, update, inl, inr, Bool, true, false,
  not, ◌||◌, if◌then◌else◌, some, Bool-cases, ==_iff, arith,
}
use escort.Address.{cache_line_size, dram_base, add_addr, get_index}
use escort.Bitmap
use escort.Bitmap.{is_set}
use escort.Addrlist
use escort.Plog.{Entry}
use escort.World.{World, curr_of, put}
use escort.RedoLog.{RedoLogs}
use escort.Userthread.{mark_line, mark_lines, mark, num_bits_of, copy_on_write}
use escort.Userthread.Mark.{MarkedRegion, mark-MarkedRegion}

module _ (L : RedoLogs) (i : ℕ) where
  open L use {State, Valid, room}

  record Advances (w w' : World State) : Type 0 where
    valid : Valid w'.logs
    left : room (suc i) w.logs ≤ suc (room (suc i) w'.logs)

  copy_on_write_total :
      (prev : Bool) (addr index : ℕ) (w : World State)
      → Valid w.logs
      → 0 < room (suc i) w.logs
      → (w' : World State) × (copy_on_write L i prev addr index w ≡ some w')
        × Advances w w'
        × (w'.bitmap (not prev) ≡ w.bitmap (not prev))
  unfolding copy_on_write
  copy_on_write_total prev addr index w v space = elim (Bool-cases (is_set (w.bitmap prev) index)) [
    | inr clean ↦ (w, ground arith, record { valid = v; left = omega arith }, refl)
    | inl marked ↦
        let e : Entry = record { addr = addr; val = w.dram addr } in
        let (logs', pushed, smaller) = L.push_total (suc i) e w.logs v space in
        (
          record w {
            bitmap = put prev (Bitmap.clear index (w.bitmap prev)) w.bitmap;
            logs = logs';
          },
          ground (arith, pushed),
          record {
            valid = L.push-Valid (suc i) e w.logs logs' v pushed;
            left = omega (arith, smaller);
          },
          other prev (Bitmap.clear index (w.bitmap prev)) w.bitmap,
        )
  ]
    where
      other :
          (b : Bool) (m : Bitmap.Bitmap) (f : Bool → Bitmap.Bitmap) → put b m f (not b) ≡ f (not b)
      other true m f = refl
      other false m f = refl

  mark_line_total :
      (curr : Bool) (addr index : ℕ) (w : World State)
      → Valid w.logs
      → 0 < room (suc i) w.logs
      → (r : Bool × World State) × (mark_line L i curr addr index w ≡ some r) × Advances w r.1
  unfolding mark_line Bitmap.set
  mark_line_total curr addr index w v space = elim (Bool-cases (is_set (w.bitmap curr) index)) [
    | inl marked ↦ ((false, w), ground arith, record { valid = v; left = omega arith })
    | inr clean ↦
        let (w₁, copied, a, same) = copy_on_write_total (not curr) addr index w v space in
        (
          (
            true,
            record w₁ {
              bitmap =
                  put curr
                    (record (w₁.bitmap curr) { bitmap = update (w₁.bitmap curr).bitmap index true })
                    w₁.bitmap;
            },
          ),
          ground (arith, copied, ap (λ m. is_set m index) same, Bool-cases curr),
          record { valid = a.valid; left = a.left },
        )
  ]

  mark_lines_total :
      (n : ℕ) (curr : Bool) (addr index : ℕ) (flag : Bool) (w : World State)
      → Valid w.logs
      → n ≤ room (suc i) w.logs
      → (r : Bool × World State) × (mark_lines L n i curr addr index flag w ≡ some r)
  unfolding mark_lines
  mark_lines_total zero curr addr index flag w v space = ((flag, w), refl)
  mark_lines_total (suc n) curr addr index flag w v space =
      let ((set, w₁), e₁, a) = mark_line_total curr addr index w v (omega arith) in
      let (r, e₂) =
        mark_lines_total n curr (add_addr addr cache_line_size) (suc index) (flag || set) w₁ a.valid
          (omega (arith, a.left)) in
      (r, rw e₁ e₂)

  -- Within an operation, with room in the redo log of the thread for the lines that the size takes,
  -- `mark` of a region in the heap runs to its end. In the bitmap of the operation's epoch it has set
  -- the bits of these lines, from the line of the first byte on, and no other bit; neither heap has
  -- changed.
  pub mark_total :
      (addr size : ℕ) (w : World State)
      → w.thread_epoch i ≢ 0
      → dram_base ≤ addr
      → Valid w.logs
      → num_bits_of size ≤ room (suc i) w.logs
      → (w' : World State) × (mark L i addr size w ≡ some w') × MarkedRegion L i addr size w w'
  unfolding mark get_index
  mark_total addr size w inside low v space =
      let (w', e) = returns in (w', e, mark-MarkedRegion L i addr size w w' e)
    where
      returns : (w' : World State) × (mark L i addr size w ≡ some w')
      returns =
          let curr : Bool = curr_of (w.thread_epoch i) in
          let base : ℕ = addr - addr % cache_line_size in
          let num_bits : ℕ = num_bits_of size in
          let ((flag, w₁), e) =
            mark_lines_total num_bits curr base ((addr - dram_base) / cache_line_size) false w v
              space in
          (
            (if flag
                then record w₁ {
                  addrlist = update w₁.addrlist i (
                      put curr (Addrlist.append (base, num_bits) (w₁.addrlist i curr))
                        (w₁.addrlist i));
                }
                else w₁),
            ground (arith, e, ==_iff (w.thread_epoch i) 0),
          )
