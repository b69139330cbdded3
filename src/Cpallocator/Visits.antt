-- ===== src/Cpallocator/Visits.antt =====
-- The entries that `check_valid` takes for valid, over the logs of every thread.
use escort.Prelude.{
  ℕ, ◌+◌, ◌<◌, ◌≡◌, refl, sym, ap, ◌∙◌, Bool, true, Option, some, List, [], ◌∷◌, count, ◌==◌,
  if◌then◌else◌, update, inl, inr, Option-cases, Bool-cases, ==_iff, arith,
}
use escort.Address.{get_index}
use escort.Bytemap.{Bytemap}
use escort.Chain.{Block}
use escort.Allocatorlog.{Allocatorlogs, AllocEntry, log_of}
use escort.Cpallocator.{check_block, check_blocks, check_threads}
use escort.Cpallocator.Bytes.{check_block-Checked}
use escort.Cpallocator.Logs.{blocks-Passed}
use escort.Cpallocator.Scanned.{unmarked, IsKeptOrRefused, Scanned, check_block-Scanned}
use escort.Cpallocator.Judged.{Judged, none-Judged, both-Judged}

-- How often a pass over the logs of the threads for an epoch visits a block.
abbrev pub visits : Bool → List ℕ → Allocatorlogs → ℕ → ℕ
visits prev [] st b = 0
visits prev (i ∷ is) st b = count b (st.chain (log_of i prev)) + visits prev is st b

visits_chain :
    (prev : Bool) (is : List ℕ) (st st' : Allocatorlogs) (b : ℕ)
    → st'.chain ≡ st.chain
    → visits prev is st' b ≡ visits prev is st b
visits_chain prev [] st st' b h = refl
visits_chain prev (i ∷ is) st st' b h =
    ground (arith, visits_chain prev is st st' b h, ap (λ f. count b (f (log_of i prev))) h)

abbrev once : ℕ → ℕ → ℕ
once b b' = if b == b' then 1 else 0

module _ (b : ℕ) (st : Allocatorlogs) (block' : Block ℕ AllocEntry) (bytes bytes' : Bytemap)
    (h : check_block (st.block b).size 0 (st.block b) bytes ≡ some (block', bytes')) where
  scan : Scanned (st.block b).size 0 (st.block b) block' bytes bytes'
  scan = check_block-Scanned (st.block b).size 0 (st.block b) block' bytes bytes' h

  visited : (b' : ℕ) → 0 < once b b' → b ≡ b'
  visited b' v = ground (arith, ==_iff b b')

  block-Judged : Judged (once b) st (record st { block = update st.block b block' }) bytes bytes'
  block-Judged =
      let c = check_block-Checked (st.block b).size 0 (st.block b) block' bytes bytes' h in
      record {
        same_size = λ b'. ground (arith, c.same_size, ==_iff b b');
        same_addr = λ b' j. ground (arith, c.same_addr j, ==_iff b b');
        reset_or_kept = c.reset_or_kept;
        unvisited = λ b' z. ground arith;
        judged = λ b' j. elim (Bool-cases (b == b')) [
          | inl same ↦ judged_here b' j same
          | inr apart ↦ inl (ground (arith, apart))
        ];
        kept = λ index none_here.
            scan.kept index
              (λ j a l. none_here b j (ground (arith, ==_iff b b)) (omega (arith, l)));
        refused = λ b' j index v l g unset.
            ap (λ e. e.is_valid) (at b' j (visited b' v))
            ∙ scan.refused j index (omega arith) (within b' j (visited b' v) l)
                (entry b' j index (visited b' v) g) unset;
        accepted = λ b' j index v l g set only.
            at b' j (visited b' (omega (arith, v)))
            ∙ scan.accepted j index (omega arith) (within b' j (visited b' (omega (arith, v))) l)
                (entry b' j index (visited b' (omega (arith, v))) g) set
                (λ k a l' g'. (only b k (ground (arith, ==_iff b b)) (omega (arith, l')) g').1)
            ∙ ap (λ x. (st.block x).entries j) (visited b' (omega (arith, v)));
      }
    where
      at : (b' j : ℕ) → b ≡ b' → (update st.block b block' b').entries j ≡ block'.entries j
      at b' j e = ground (arith, ==_iff b b')

      within : (b' j : ℕ) → b ≡ b' → j < (st.block b').size → j < 0 + (st.block b).size
      within b' j e l = omega (arith, l, ap (λ x. (st.block x).size) e)

      entry :
          (b' j index : ℕ)
          → b ≡ b'
          → get_index ((st.block b').entries j).addr ≡ some index
          → get_index ((st.block b).entries j).addr ≡ some index
      entry b' j index e g = ap (λ x. get_index ((st.block x).entries j).addr) e ∙ g

      judged_here :
          (b' j : ℕ)
          → (b == b') ≡ true
          → IsKeptOrRefused ((st.block b').entries j) ((update st.block b block' b').entries j)
      judged_here b' j same =
          let e = (==_iff b b').0 same in
          let from : (st.block b').entries j ≡ (st.block b).entries j =
            sym (ap (λ x. (st.block x).entries j) e) in
          elim (scan.judged j) [
            | inl p ↦ inl (at b' j e ∙ p ∙ sym from)
            | inr p ↦ inr (at b' j e ∙ p ∙ ap unmarked (sym from))
          ]

blocks-Judged :
    (bs : List ℕ) (st st' : Allocatorlogs) (bytes bytes' : Bytemap)
    → check_blocks bs st bytes ≡ some (st', bytes')
    → Judged (λ b. count b bs) st st' bytes bytes'
unfolding check_blocks
blocks-Judged [] st st' bytes bytes' h = none-Judged h
blocks-Judged (b ∷ bs) st st' bytes bytes' h = elim (Option-cases (check_blocks bs st bytes)) [
  | inl failed ↦ absurd (ground arith)
  | inr ((st₁, bytes₁), e) ↦
      elim (Option-cases (check_block (st₁.block b).size 0 (st₁.block b) bytes₁)) [
        | inl failed ↦ absurd (ground arith)
        | inr ((block', bytes₂), e') ↦
            let last : ◌≡◌ {A = Option (Allocatorlogs × Bytemap)}
                (some (record st₁ { block = update st₁.block b block' }, bytes₂))
                (some (st', bytes')) =
              ground arith in
            both-Judged
              (both-Judged (blocks-Judged bs st st₁ bytes bytes₁ e)
                (block-Judged b st₁ block' bytes₁ bytes₂ e') (λ b'. refl))
              (none-Judged last) (λ b'. ground (arith, ==_iff b b', ==_iff b' b))
      ]
]

pub threads-Judged :
    (prev : Bool) (is : List ℕ) (st st' : Allocatorlogs) (bytes bytes' : Bytemap)
    → check_threads prev is st bytes ≡ some (st', bytes')
    → Judged (visits prev is st) st st' bytes bytes'
unfolding check_threads
threads-Judged prev [] st st' bytes bytes' h = none-Judged h
threads-Judged prev (i ∷ is) st st' bytes bytes' h =
    elim (Option-cases (check_blocks (st.chain (log_of i prev)) st bytes)) [
      | inl failed ↦ absurd (ground arith)
      | inr ((st₁, bytes₁), e) ↦
          let p = blocks-Passed (st.chain (log_of i prev)) st st₁ bytes bytes₁ e in
          both-Judged (blocks-Judged (st.chain (log_of i prev)) st st₁ bytes bytes₁ e)
            (threads-Judged prev is st₁ st' bytes₁ bytes' (ground arith))
            (λ b. ground (arith, visits_chain prev is st st₁ b p.same_chain))
    ]
