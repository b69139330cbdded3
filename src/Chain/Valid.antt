-- ===== src/Chain/Valid.antt =====
-- The invariant of a store of blocks: every block is in the pool or in one log, and never in two.
use escort.Prelude.{ℕ, ◌+◌, ◌≤◌, ◌<◌, ◌≡◌, ◌≢◌, refl, List, [], ◌∷◌, count, update, arith}
use escort.Chain.{Store, Block, items_of}

module _ {H E : Type 0} where
  pub record Valid (cap : ℕ) (st : Store H E) : Type 0 where
    pub single : (b : ℕ) → count b st.free + count b st.used ≤ 1
    pub owned : (k b : ℕ) → count b (st.chain k) ≤ count b st.used
    pub apart : (j k b : ℕ) → j ≢ k → count b (st.chain j) + count b (st.chain k) ≤ 1
    pub cleared : (b : ℕ) → 0 < count b st.free → (st.block b).size ≡ 0
    pub bounded : (b : ℕ) → 0 < count b st.used → (st.block b).size ≤ cap

  -- A write to a block that a log does not hold leaves what the log holds.
  pub items_of-update :
      (block : ℕ → Block H E) (b : ℕ) (blk : Block H E) (xs : List ℕ)
      → count b xs ≡ 0
      → items_of (update block b blk) xs ≡ items_of block xs
  items_of-update block b blk [] h = refl
  items_of-update block b blk (x ∷ xs) h = ground (arith, items_of-update block b blk xs)
