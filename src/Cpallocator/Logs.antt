-- ===== src/Cpallocator/Logs.antt =====
-- `check_valid` over the logs of every thread: the bytes of the epoch that ends are ready for the
-- epoch after the next.
use escort.Prelude.{
  ℕ, ◌<◌, ◌≡◌, refl, sym, ap, ◌∙◌, Bool, true, false, not, subst, Option, some, List, [], ◌∷◌,
  count, ◌==◌, update, ◌⊎◌, inl, inr, Option-cases, Bool-cases, ==_iff, arith,
}
use escort.Address.{get_index}
use escort.Bytemap.{Bytemap}
use escort.Chain.{Block}
use escort.Allocatorlog.{Allocatorlogs, AllocEntry, log_of}
use escort.World.{put, prev_of}
use escort.Allocator.{Jemalloc, AllocWorld}
use escort.Cpallocator.{check_block, check_blocks, check_threads, check_valid}
use escort.Cpallocator.Bytes.{IsReset, check_block-Checked}

-- A pass over the blocks of `In` that succeeds.
pub record Passed (In : ℕ → Type 0) (st st' : Allocatorlogs) (bytes bytes' : Bytemap) : Type 0 where
  pub same_chain : st'.chain ≡ st.chain
  pub same_size : (b : ℕ) → (st'.block b).size ≡ (st.block b).size
  pub same_addr : (b j : ℕ) → ((st'.block b).entries j).addr ≡ ((st.block b).entries j).addr
  pub same_obj : (b j : ℕ) → ((st'.block b).entries j).size ≡ ((st.block b).entries j).size
  pub reset_or_kept : IsReset bytes bytes'
  pub reset :
      (b j index : ℕ)
      → In b
      → j < (st.block b).size
      → get_index ((st.block b).entries j).addr ≡ some index
      → bytes' index ≡ 0

none-Passed :
    (In : ℕ → Type 0) {st st' : Allocatorlogs} {bytes bytes' : Bytemap}
    → ◌≡◌ {A = Option (Allocatorlogs × Bytemap)} (some (st, bytes)) (some (st', bytes'))
    → ((b : ℕ) → ¬ In b)
    → Passed In st st' bytes bytes'
none-Passed In h never = record {
  same_chain = ground arith;
  same_size = λ b. ground arith;
  same_addr = λ b j. ground arith;
  same_obj = λ b j. ground arith;
  reset_or_kept = λ index. ground arith;
  reset = λ b j index m. absurd (never b m);
}

-- Two passes, one after the other.
both-Passed :
    {A B In : ℕ → Type 0} {st st₁ st₂ : Allocatorlogs} {bytes bytes₁ bytes₂ : Bytemap}
    → Passed A st st₁ bytes bytes₁
    → Passed B st₁ st₂ bytes₁ bytes₂
    → ((b : ℕ) → In b → A b ⊎ B b)
    → Passed In st st₂ bytes bytes₂
both-Passed p q split = record {
  same_chain = q.same_chain ∙ p.same_chain;
  same_size = λ b. q.same_size b ∙ p.same_size b;
  same_addr = λ b j. q.same_addr b j ∙ p.same_addr b j;
  same_obj = λ b j. q.same_obj b j ∙ p.same_obj b j;
  reset_or_kept = λ index. ground (arith, p.reset_or_kept index, q.reset_or_kept index);
  reset = λ b j index m l g. elim (split b m) [
    | inl first ↦ ground (arith, p.reset b j index first l g, q.reset_or_kept index)
    | inr later ↦
        q.reset b j index later (omega (arith, p.same_size b)) (ap get_index (p.same_addr b j) ∙ g)
  ];
}

pub block-Passed :
    (b : ℕ) (st : Allocatorlogs) (block' : Block ℕ AllocEntry) (bytes bytes' : Bytemap)
    → check_block (st.block b).size 0 (st.block b) bytes ≡ some (block', bytes')
    → Passed (λ b'. b' ≡ b) st (record st { block = update st.block b block' }) bytes bytes'
block-Passed b st block' bytes bytes' h =
    let c = check_block-Checked (st.block b).size 0 (st.block b) block' bytes bytes' h in
    record {
      same_chain = refl;
      same_size = λ b'. ground (arith, c.same_size, ==_iff b b');
      same_addr = λ b' j. ground (arith, c.same_addr j, ==_iff b b');
      same_obj = λ b' j. ground (arith, c.same_obj j, ==_iff b b');
      reset_or_kept = c.reset_or_kept;
      reset = λ b' j index e l g.
          c.reset j index (omega arith) (omega (arith, ap (λ x. (st.block x).size) e))
            (sym (ap (λ x. get_index ((st.block x).entries j).addr) e) ∙ g);
    }

pub blocks-Passed :
    (bs : List ℕ) (st st' : Allocatorlogs) (bytes bytes' : Bytemap)
    → check_blocks bs st bytes ≡ some (st', bytes')
    → Passed (λ b. 0 < count b bs) st st' bytes bytes'
unfolding check_blocks
blocks-Passed [] st st' bytes bytes' h = none-Passed (λ b. 0 < count b []) h (λ b m. omega arith)
blocks-Passed (b ∷ bs) st st' bytes bytes' h = elim (Option-cases (check_blocks bs st bytes)) [
  | inl failed ↦ absurd (ground arith)
  | inr ((st₁, bytes₁), e) ↦
      elim (Option-cases (check_block (st₁.block b).size 0 (st₁.block b) bytes₁)) [
        | inl failed ↦ absurd (ground arith)
        | inr ((block', bytes₂), e') ↦
            let last : ◌≡◌ {A = Option (Allocatorlogs × Bytemap)}
                (some (record st₁ { block = update st₁.block b block' }, bytes₂))
                (some (st', bytes')) =
              ground arith in
            both-Passed
              (both-Passed (blocks-Passed bs st st₁ bytes bytes₁ e)
                (block-Passed b st₁ block' bytes₁ bytes₂ e')
                (λ b' m. ground (arith, ==_iff b b', ==_iff b' b)))
              (none-Passed (λ b'. ⊥) last (λ b' m. m)) (λ b' m. inl m)
      ]
]

-- The blocks in the logs of the previous epoch of the threads.
abbrev pub Logged : Bool → List ℕ → Allocatorlogs → ℕ → Type 0
Logged prev ctxs st b = (i : ℕ) × (0 < count i ctxs) × (0 < count b (st.chain (log_of i prev)))

threads-Passed :
    (prev : Bool) (is : List ℕ) (st st' : Allocatorlogs) (bytes bytes' : Bytemap)
    → check_threads prev is st bytes ≡ some (st', bytes')
    → Passed (Logged prev is st) st st' bytes bytes'
unfolding check_threads
threads-Passed prev [] st st' bytes bytes' h =
    none-Passed (Logged prev [] st) h (λ b (i, m, c). omega arith)
threads-Passed prev (i ∷ is) st st' bytes bytes' h =
    elim (Option-cases (check_blocks (st.chain (log_of i prev)) st bytes)) [
      | inl failed ↦ absurd (ground arith)
      | inr ((st₁, bytes₁), e) ↦
          let p = blocks-Passed (st.chain (log_of i prev)) st st₁ bytes bytes₁ e in
          both-Passed p (threads-Passed prev is st₁ st' bytes₁ bytes' (ground arith))
            (λ b (k, m, c). elim (Bool-cases (i == k)) [
              | inl same ↦ inl (ground (arith, ==_iff i k))
              | inr other ↦ inr (
                k,
                ground (arith, ==_iff i k, ==_iff k i),
                ground (arith, ap (λ f. f (log_of k prev)) p.same_chain),
              )
            ])
    ]

pub put_own : (b : Bool) (m : Bytemap) (f : Bool → Bytemap) → m ≡ put b m f b
put_own true m f = refl
put_own false m f = refl

put_other : (b : Bool) (m : Bytemap) (f : Bool → Bytemap) → put b m f (not b) ≡ f (not b)
put_other true m f = refl
put_other false m f = refl

module _ (J : Jemalloc) where
  open J use {Heap}

  -- A `check_valid` that succeeds resets the byte of every block that a log of a registered thread
  -- names for the previous epoch. Any other byte of that epoch is as it was or reset, those of the
  -- other epoch are as they were, and the logs keep their blocks, sizes and addresses.
  pub check_valid-Passed :
      (ctxs : List ℕ) (w w' : AllocWorld Heap)
      → check_valid J ctxs w ≡ some w'
      → Passed
          (Logged (prev_of w.global_epoch) ctxs w.logs)
          w.logs
          w'.logs
          (w.bytemap (prev_of w.global_epoch))
          (w'.bytemap (prev_of w.global_epoch))
        × (w'.bytemap (not (prev_of w.global_epoch)) ≡ w.bytemap (not (prev_of w.global_epoch)))
  unfolding check_valid
  check_valid-Passed ctxs w w' h =
      elim (Option-cases
        (check_threads (prev_of w.global_epoch) ctxs w.logs (w.bytemap (prev_of w.global_epoch)))) [
          | inl failed ↦ absurd (ground arith)
          | inr ((st, bytes), e) ↦
              let stored : record w {
                logs = st;
                bytemap = put (prev_of w.global_epoch) bytes w.bytemap;
              }
                  ≡ w' =
                ground arith in
              subst
                (λ u.
                  Passed (Logged (prev_of w.global_epoch) ctxs w.logs) w.logs u.logs
                    (w.bytemap (prev_of w.global_epoch)) (u.bytemap (prev_of w.global_epoch))
                  × (u.bytemap (not (prev_of w.global_epoch))
                      ≡ w.bytemap (not (prev_of w.global_epoch))))
                stored
                (
                  subst
                      (λ m.
                        Passed (Logged (prev_of w.global_epoch) ctxs w.logs) w.logs st
                          (w.bytemap (prev_of w.global_epoch)) m)
                      (put_own (prev_of w.global_epoch) bytes w.bytemap)
                      (threads-Passed (prev_of w.global_epoch) ctxs w.logs st
                        (w.bytemap (prev_of w.global_epoch)) bytes e),
                  put_other (prev_of w.global_epoch) bytes w.bytemap,
                )
        ]
