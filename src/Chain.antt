-- ===== src/Chain.antt =====
-- Blocks of log entries, the pool that lends them, and the logs that are chains of such blocks:
-- src/plog_t.hpp, src/plog_t.cpp, and the like part of src/allocatorlog_t.hpp and
-- src/allocatorlog_t.cpp. A block is named by its place in the NVM log area. The lists of blocks
-- are written with their back first, since the code pushes and pops at the back.
pub mod Valid
pub mod Push
pub mod Clear
use escort.Prelude.{
  ℕ, suc, Bool, true, false, Option, none, some, List, [], ◌∷◌, ◌++◌, ltb, ◌==◌, if◌then◌else◌,
  update, remove, prefix, ◌>>=◌, length, ◌+◌, ◌-◌, ◌*◌,
}

-- `log_block_t`; the header is what a block holds beside its entries.
pub record Block (H E : Type 0) : Type 0 where
  pub header : H
  pub size : ℕ
  pub entries : ℕ → E

-- The manager's two lists, the blocks in NVM, and the `_block_list` of each log.
pub record Store (H E : Type 0) : Type 0 where
  pub free : List ℕ
  pub used : List ℕ
  pub block : ℕ → Block H E
  pub chain : ℕ → List ℕ

abbrev pub is_empty : List ℕ → Bool
is_empty [] = true
is_empty (_ ∷ _) = false

module _ {H E : Type 0} where
  -- `pop` of the manager: the assertion that a block is free, then from one list to the other.
  unfoldable pub pop : Store H E → Option (ℕ × Store H E)
  pop st = elim st.free [
    | [] ↦ none
    | b ∷ rest ↦ some (b, record st { free = rest; used = b ∷ st.used })
  ]

  -- `push` of the manager.
  unfoldable pub push : ℕ → Store H E → Store H E
  push b st = record st { free = b ∷ st.free; used = remove b st.used }

  -- `log_block_t::append`: `DEBUG_ERROR` above the capacity, `false` at it.
  unfoldable pub append_block : ℕ → E → Block H E → Option (Bool × Block H E)
  append_block cap e blk =
      if ltb cap blk.size
      then none
      else (if blk.size == cap
          then some (false, blk)
          else some
              (true, record blk { size = suc blk.size; entries = update blk.entries blk.size e }))

  -- A block from the pool, prepared and put at the back of log `k`.
  unfoldable pub fetch : (H → H) → ℕ → Store H E → Option (Store H E)
  unfolding pop
  fetch prepare k st = do
    (b, st') ← pop st
    some (record st' {
      block = update st'.block b (record (st'.block b) { header = prepare (st'.block b).header });
      chain = update st'.chain k (b ∷ st'.chain k);
    })

  -- `_block_list.back()->append(entry)`
  unfoldable pub append_tail : ℕ → ℕ → E → Store H E → Option (Bool × Store H E)
  unfolding append_block
  append_tail cap k e st = elim (st.chain k) [
    | [] ↦ none
    | b ∷ rest ↦ do
      (is_succ, blk) ← append_block cap e (st.block b)
      some (is_succ, record st { block = update st.block b blk })
  ]

  -- The append to a log: a first block if it has none, and a new one if the last is full. The
  -- result of the second append is dropped.
  unfoldable pub push_back : ℕ → (H → H) → ℕ → E → Store H E → Option (Store H E)
  push_back cap prepare k e st = do
    st₁ ← (if is_empty (st.chain k) then fetch prepare k st else some st)
    (is_succ, st₂) ← append_tail cap k e st₁
    if is_succ
        then some st₂
        else (do st₃ ← fetch prepare k st₂; (_, st₄) ← append_tail cap k e st₃; some st₄)

  -- The loop of `clear`: the last block is emptied, given back and taken off the log.
  unfoldable pub clear_blocks : ℕ → List ℕ → Store H E → Store H E
  unfolding push
  clear_blocks k [] st = st
  clear_blocks k (b ∷ rest) st =
      clear_blocks k rest
        (record (push b
          (record st { block = update st.block b (record (st.block b) { size = 0 }) })) {
            chain = update st.chain k rest;
          })

  unfoldable pub clear : ℕ → Store H E → Store H E
  unfolding clear_blocks
  clear k st = clear_blocks k (st.chain k) st

  -- What a log holds, oldest entry first.
  abbrev pub items : Block H E → List E
  items blk = prefix blk.size blk.entries

  abbrev pub items_of : (ℕ → Block H E) → List ℕ → List E
  items_of block [] = []
  items_of block (b ∷ rest) = items_of block rest ++ items (block b)

  abbrev pub contents : ℕ → Store H E → List E
  contents k st = items_of st.block (st.chain k)

  -- How many entries log `k` can take while no other log takes a block.
  abbrev pub tail_room : ℕ → (ℕ → Block H E) → List ℕ → ℕ
  tail_room cap block [] = 0
  tail_room cap block (b ∷ rest) = cap - (block b).size

  abbrev pub room : ℕ → ℕ → Store H E → ℕ
  room cap k st = length st.free * cap + tail_room cap st.block (st.chain k)
