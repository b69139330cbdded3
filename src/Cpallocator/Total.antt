-- ===== src/Cpallocator/Total.antt =====
-- `check_valid` succeeds where the logs name blocks of the heap.
use escort.Prelude.{
  ℕ, zero, suc, ◌+◌, ◌<◌, ◌≤◌, ◌≡◌, refl, ap, ◌∙◌, Bool, false, not, subst, some, List, [], ◌∷◌,
  update, if◌then◌else◌, arith,
}
use escort.Address.{get_index}
use escort.Bytemap.{Bytemap}
use escort.Bytemap
use escort.Chain.{Block}
use escort.Allocatorlog.{Allocatorlogs, AllocEntry, log_of}
use escort.World.{put, prev_of}
use escort.Allocator.{Jemalloc, AllocWorld}
use escort.Cpallocator.{check_entry, check_block, check_blocks, check_threads, check_valid}
use escort.Cpallocator.Logs.{Passed, Logged, put_own, blocks-Passed, check_valid-Passed}
use escort.Cpallocator.Judged.{Judged}
use escort.Cpallocator.Visits.{visits, threads-Judged}

-- The address of an entry has a place in the map of bytes.
abbrev pub HasIndex : AllocEntry → Type 0
HasIndex entry = (index : ℕ) × (get_index entry.addr ≡ some index)

-- Every entry in a log block has.
abbrev pub InMap : Allocatorlogs → Type 0
InMap st = (b j : ℕ) → j < (st.block b).size → HasIndex ((st.block b).entries j)

InMap-Passed :
    {In : ℕ → Type 0} {st st' : Allocatorlogs} {bytes bytes' : Bytemap}
    → Passed In st st' bytes bytes'
    → InMap st
    → InMap st'
InMap-Passed p m b j l =
    let (index, got) = m b j (omega (arith, p.same_size b)) in
    (index, ap get_index (p.same_addr b j) ∙ got)

check_block_total :
    (fuel i : ℕ) (block : Block ℕ AllocEntry) (bytes : Bytemap)
    → ((j : ℕ) → i ≤ j → j < i + fuel → HasIndex (block.entries j))
    → (r : Block ℕ AllocEntry × Bytemap) × (check_block fuel i block bytes ≡ some r)
unfolding check_block check_entry
check_block_total zero i block bytes h = ((block, bytes), refl)
check_block_total (suc fuel) i block bytes h =
    let (index, got) = h i (omega arith) (omega arith) in
    let next : AllocEntry =
      if Bytemap.is_set bytes index
      then block.entries i
      else record (block.entries i) { is_valid = false } in
    let (r, e) =
      check_block_total fuel (suc i) (record block { entries = update block.entries i next })
        (Bytemap.clear index bytes)
        (λ j a b. kept j next (omega (arith, a)) (h j (omega (arith, a)) (omega (arith, b)))) in
    (r, ground (arith, got, e))
  where
    kept :
        (j : ℕ) (next : AllocEntry)
        → i < j
        → HasIndex (block.entries j)
        → HasIndex (update block.entries i next j)
    kept j next l (index, got) = (index, ground (arith, got))

check_blocks_total :
    (bs : List ℕ) (st : Allocatorlogs) (bytes : Bytemap)
    → InMap st
    → (r : Allocatorlogs × Bytemap) × (check_blocks bs st bytes ≡ some r)
unfolding check_blocks
check_blocks_total [] st bytes m = ((st, bytes), refl)
check_blocks_total (b ∷ bs) st bytes m =
    let ((st₁, bytes₁), e) = check_blocks_total bs st bytes m in
    let m₁ : InMap st₁ = InMap-Passed (blocks-Passed bs st st₁ bytes bytes₁ e) m in
    let ((block', bytes'), e') =
      check_block_total (st₁.block b).size 0 (st₁.block b) bytes₁
        (λ j a l. m₁ b j (omega (arith, l))) in
    ((record st₁ { block = update st₁.block b block' }, bytes'), ground (arith, e, e'))

check_threads_total :
    (prev : Bool) (is : List ℕ) (st : Allocatorlogs) (bytes : Bytemap)
    → InMap st
    → (r : Allocatorlogs × Bytemap) × (check_threads prev is st bytes ≡ some r)
unfolding check_threads
check_threads_total prev [] st bytes m = ((st, bytes), refl)
check_threads_total prev (i ∷ is) st bytes m =
    let ((st₁, bytes₁), e) = check_blocks_total (st.chain (log_of i prev)) st bytes m in
    let (r, e') =
      check_threads_total prev is st₁ bytes₁
        (InMap-Passed (blocks-Passed (st.chain (log_of i prev)) st st₁ bytes bytes₁ e) m) in
    (r, ground (arith, e, e'))

module _ (J : Jemalloc) where
  open J use {Heap}

  -- Where every entry in a log block has an address with a place in the map of bytes, `check_valid`
  -- succeeds. It resets the bytes that the logs of the registered threads name for the previous epoch,
  -- and no others; those of the other epoch and the logs' blocks, sizes and addresses are as they were.
  -- Of the entries, only those in blocks that are visited change, and only by losing their mark
  -- `is_valid`: each one whose byte was not 1 has lost it, and one whose byte was 1 and which no other
  -- entry shares, in a block that is visited once, is as it was.
  pub check_valid_total :
      (ctxs : List ℕ) (w : AllocWorld Heap)
      → InMap w.logs
      → (w' : AllocWorld Heap) × (check_valid J ctxs w ≡ some w')
        × Passed
            (Logged (prev_of w.global_epoch) ctxs w.logs)
            w.logs
            w'.logs
            (w.bytemap (prev_of w.global_epoch))
            (w'.bytemap (prev_of w.global_epoch))
        × Judged
            (visits (prev_of w.global_epoch) ctxs w.logs)
            w.logs
            w'.logs
            (w.bytemap (prev_of w.global_epoch))
            (w'.bytemap (prev_of w.global_epoch))
        × (w'.bytemap (not (prev_of w.global_epoch)) ≡ w.bytemap (not (prev_of w.global_epoch)))
  unfolding check_valid
  check_valid_total ctxs w m =
      let prev : Bool = prev_of w.global_epoch in
      let (r, e) = check_threads_total prev ctxs w.logs (w.bytemap prev) m in
      let w' : AllocWorld Heap = record w { logs = r.0; bytemap = put prev r.1 w.bytemap } in
      let succeeds : check_valid J ctxs w ≡ some w' = ground (arith, e) in
      let (own, other) = check_valid-Passed J ctxs w w' succeeds in
      (
        w',
        succeeds,
        own,
        subst (λ m. Judged (visits prev ctxs w.logs) w.logs r.0 (w.bytemap prev) m)
            (put_own prev r.1 w.bytemap)
            (threads-Judged prev ctxs w.logs r.0 (w.bytemap prev) r.1 e),
        other,
      )
