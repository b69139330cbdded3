-- ===== src/Durability/Resting.antt =====
-- Between two rounds of the checkpointing thread: marks and writes keep the boundary at which an epoch
-- can end.
use escort.Prelude.{
  ℕ, ◌<◌, ◌≡◌, sym, subst, inl, inr, Bool, true, some, List, ◌∷◌, update, Bool-cases, ==_iff, arith,
}
use escort.Address.{num_lines, line_addr}
use escort.Bitmap.{is_set}
use escort.Plog.{Cacheline}
use escort.World.{World}
use escort.RedoLog.{RedoLogs}
use escort.Userthread.{mark_line}
use escort.Snapshot.Update.{Boundary}
use escort.Durability.Marks.{with_bit, mark_line_alone}

module _ (L : RedoLogs) (offset : ℕ) (ctxs : List ℕ) (cur : Bool) (w : World L.State)
    (todo : List ℕ) (b : Boundary L offset ctxs cur w todo) (l : ℕ) where
  open L use {State}

  with_bit-Boundary : Boundary L offset ctxs cur (with_bit L cur l w) (l ∷ todo)
  with_bit-Boundary = record {
    valid = b.valid;
    idle = λ x. ground (arith, Bool-cases cur, b.idle x);
    empty = b.empty;
    clean = λ x h c. b.clean x h (ground (arith, Bool-cases cur));
    planned = λ x p. ground (arith, Bool-cases cur, b.planned x, ==_iff l x);
  }

  more-Boundary : Boundary L offset ctxs cur w (l ∷ todo)
  more-Boundary = record {
    valid = b.valid;
    idle = b.idle;
    empty = b.empty;
    clean = b.clean;
    planned = λ x p. ground (arith, b.planned x p);
  }

  pub mark-Boundary :
      (i : ℕ) (has_set : Bool) (w' : World State)
      → mark_line L i cur (line_addr l) l w ≡ some (has_set, w')
      → Boundary L offset ctxs cur w' (l ∷ todo)
  mark-Boundary i has_set w' h =
      elim (mark_line_alone L i cur (line_addr l) l has_set w w' (b.idle l) h) [
        | inl same ↦ subst (λ u. Boundary L offset ctxs cur u (l ∷ todo)) (sym same) more-Boundary
        | inr set ↦ subst (λ u. Boundary L offset ctxs cur u (l ∷ todo)) (sym set) with_bit-Boundary
      ]

  pub write-Boundary :
      (val : Cacheline)
      → l < num_lines
      → is_set (w.bitmap cur) l ≡ true
      → Boundary L offset ctxs cur (record w { dram = update w.dram (line_addr l) val }) todo
  write-Boundary val bound marked = record {
    valid = b.valid;
    idle = b.idle;
    empty = b.empty;
    clean = λ x h c. ground (arith, b.clean x h c, ==_iff l x);
    planned = b.planned;
  }
