-- ===== src/Cpallocator/Judged.antt =====
-- Which entries of the logs a pass of `check_valid` takes for valid, and two passes one after the other.
use escort.Prelude.{
  ℕ, zero, suc, ◌+◌, ◌<◌, ◌≡◌, ◌≢◌, refl, sym, ap, ◌∙◌, true, false, Option, some, ◌==◌, ◌⊎◌, inl,
  inr, arith,
}
use escort.Address.{get_index}
use escort.Bytemap
use escort.Bytemap.{Bytemap}
use escort.Allocatorlog.{Allocatorlogs, AllocEntry}
use escort.Cpallocator.Bytes.{IsReset}
use escort.Cpallocator.Scanned.{IsKeptOrRefused, IsKeptOrRefused-trans}

-- What a pass that visits block `b` `visits b` times says of the entries.
pub record Judged (visits : ℕ → ℕ) (st st' : Allocatorlogs) (bytes bytes' : Bytemap) : Type 0 where
  pub same_size : (b : ℕ) → (st'.block b).size ≡ (st.block b).size
  pub same_addr : (b j : ℕ) → ((st'.block b).entries j).addr ≡ ((st.block b).entries j).addr
  pub reset_or_kept : IsReset bytes bytes'
  pub unvisited : (b : ℕ) → visits b ≡ 0 → st'.block b ≡ st.block b
  pub judged : (b j : ℕ) → IsKeptOrRefused ((st.block b).entries j) ((st'.block b).entries j)
  pub kept :
      (index : ℕ)
      → ((b j : ℕ)
          → 0 < visits b
          → j < (st.block b).size
          → get_index ((st.block b).entries j).addr ≢ some index)
      → bytes' index ≡ bytes index
  pub refused :
      (b j index : ℕ)
      → 0 < visits b
      → j < (st.block b).size
      → get_index ((st.block b).entries j).addr ≡ some index
      → Bytemap.is_set bytes index ≡ false
      → ((st'.block b).entries j).is_valid ≡ false
  pub accepted :
      (b j index : ℕ)
      → visits b ≡ 1
      → j < (st.block b).size
      → get_index ((st.block b).entries j).addr ≡ some index
      → Bytemap.is_set bytes index ≡ true
      → ((c k : ℕ)
          → 0 < visits c
          → k < (st.block c).size
          → get_index ((st.block c).entries k).addr ≡ some index
          → (c ≡ b) × (k ≡ j))
      → (st'.block b).entries j ≡ (st.block b).entries j

pub none-Judged :
    {st st' : Allocatorlogs} {bytes bytes' : Bytemap}
    → ◌≡◌ {A = Option (Allocatorlogs × Bytemap)} (some (st, bytes)) (some (st', bytes'))
    → Judged (λ b. 0) st st' bytes bytes'
none-Judged h = record {
  same_size = λ b. ground arith;
  same_addr = λ b j. ground arith;
  reset_or_kept = λ index. ground arith;
  unvisited = λ b z. ground arith;
  judged = λ b j. inl (ground arith);
  kept = λ index none_here. ground arith;
  refused = λ b j index m. absurd (omega (arith, m));
  accepted = λ b j index m. absurd (omega (arith, m));
}

unset-IsReset :
    (bytes bytes' : Bytemap) (index : ℕ)
    → IsReset bytes bytes'
    → Bytemap.is_set bytes index ≡ false
    → Bytemap.is_set bytes' index ≡ false
unset-IsReset bytes bytes' index r unset = ground (arith, r index)

IsKeptOrRefused-false :
    (x y : AllocEntry) → IsKeptOrRefused x y → x.is_valid ≡ false → y.is_valid ≡ false
IsKeptOrRefused-false x y (inl p) v = ap (λ e. e.is_valid) p ∙ v
IsKeptOrRefused-false x y (inr p) v = ap (λ e. e.is_valid) p

-- Two passes, one after the other.
pub both-Judged :
    {m n total : ℕ → ℕ} {st st₁ st₂ : Allocatorlogs} {bytes bytes₁ bytes₂ : Bytemap}
    → Judged m st st₁ bytes bytes₁
    → Judged n st₁ st₂ bytes₁ bytes₂
    → ((b : ℕ) → total b ≡ m b + n b)
    → Judged total st st₂ bytes bytes₂
both-Judged {m} {n} {total} {st} {st₁} {st₂} {bytes} {bytes₁} {bytes₂} p q sum = record {
  same_size = λ b. q.same_size b ∙ p.same_size b;
  same_addr = λ b j. q.same_addr b j ∙ p.same_addr b j;
  reset_or_kept = λ index. ground (arith, p.reset_or_kept index, q.reset_or_kept index);
  unvisited =
      λ b z. q.unvisited b (omega (arith, sum b, z)) ∙ p.unvisited b (omega (arith, sum b, z));
  judged = λ b j. IsKeptOrRefused-trans _ _ _ (p.judged b j) (q.judged b j);
  kept = λ index none_here.
      q.kept index (λ b j v l g.
        none_here b j (omega (arith, sum b, v)) (omega (arith, l, p.same_size b))
          (sym (ap get_index (p.same_addr b j)) ∙ g))
      ∙ p.kept index (λ b j v l. none_here b j (omega (arith, sum b, v)) l);
  refused = λ b j index v l g unset. elim (zero_or_more (m b)) [
    | inl skipped ↦
        q.refused b j index (omega (arith, sum b, v, skipped)) (omega (arith, l, p.same_size b))
          (ap get_index (p.same_addr b j) ∙ g)
          (unset-IsReset bytes bytes₁ index p.reset_or_kept unset)
    | inr visited ↦ IsKeptOrRefused-false _ _ (q.judged b j) (p.refused b j index visited l g unset)
  ];
  accepted = λ b j index once l g set only. elim (zero_or_more (m b)) [
    | inl skipped ↦
        q.accepted b j index (omega (arith, sum b, once, skipped)) (omega (arith, l, p.same_size b))
          (ap get_index (p.same_addr b j) ∙ g)
          (ap (λ byte. byte == 1)
              (p.kept index (λ c k v l' g'.
                let e = only c k (omega (arith, sum c, v)) l' g' in
                absurd (omega (arith, v, skipped, ap m e.0))))
            ∙ set)
          (λ c k v l' g'.
            only c k (omega (arith, sum c, v)) (omega (arith, l', p.same_size c))
              (sym (ap get_index (p.same_addr c k)) ∙ g'))
        ∙ ap (λ block. block.entries j) (p.unvisited b skipped)
    | inr visited ↦
        ap (λ block. block.entries j) (q.unvisited b (omega (arith, sum b, once, visited)))
        ∙ p.accepted b j index (omega (arith, sum b, once, visited)) l g set
            (λ c k v l' g'. only c k (omega (arith, sum c, v)) l' g')
  ];
}
  where
    zero_or_more : (k : ℕ) → (k ≡ 0) ⊎ (0 < k)
    zero_or_more zero = inl refl
    zero_or_more (suc k) = inr (omega arith)
