-- ===== src/Recovery/Copy.antt =====
-- What the copy from NVM to DRAM does to each byte.
use escort.Prelude.{
  ℕ, zero, suc, ◌+◌, ◌*◌, ◌≤◌, ◌<◌, ◌≡◌, refl, sym, subst, inl, inr, Bool, ◌&&◌, ltb, ◌==◌,
  if◌then◌else◌, Bool-cases, ==_iff, arith,
}
use escort.Recovery.{block_size, copy_page, copy}

-- A byte that is 0 in DRAM takes the value in NVM, any other stays.
abbrev pub merged : ℕ → ℕ → ℕ
merged d v = if d == 0 then v else d

copy_page_below :
    (nvm : ℕ → ℕ) (start n : ℕ) (dram : ℕ → ℕ) (i : ℕ)
    → i < start
    → copy_page nvm start n dram i ≡ dram i
unfolding copy_page
copy_page_below nvm start zero dram i h = refl
copy_page_below nvm start (suc n) dram i h = ground (arith, copy_page_below nvm start n dram i)

copy_page_above :
    (nvm : ℕ → ℕ) (start n : ℕ) (dram : ℕ → ℕ) (i : ℕ)
    → start + n ≤ i
    → copy_page nvm start n dram i ≡ dram i
unfolding copy_page
copy_page_above nvm start zero dram i h = refl
copy_page_above nvm start (suc n) dram i h = ground (arith, copy_page_above nvm start n dram i)

copy_page_within :
    (nvm : ℕ → ℕ) (start n : ℕ) (dram : ℕ → ℕ) (i : ℕ)
    → i < n
    → copy_page nvm start n dram (start + i) ≡ merged (dram (start + i)) (nvm (start + i))
unfolding copy_page
copy_page_within nvm start zero dram i h = absurd (omega arith)
copy_page_within nvm start (suc n) dram i h = elim (Bool-cases (i == n)) [
  | inl last ↦
      subst
        (λ k.
          copy_page nvm start (suc n) dram (start + k)
          ≡ merged (dram (start + k)) (nvm (start + k)))
        (sym ((==_iff i n).0 last))
        (last_byte (copy_page_above nvm start n dram (start + n) (omega arith)))
  | inr earlier ↦ ground (arith, copy_page_within nvm start n dram i, ==_iff i n)
]
  where
    last_byte :
        copy_page nvm start n dram (start + n) ≡ dram (start + n)
        → copy_page nvm start (suc n) dram (start + n) ≡ merged (dram (start + n)) (nvm (start + n))
    last_byte above =
        ground (arith, Bool-cases (dram (start + n) == 0), Bool-cases (nvm (start + n) == 0))

-- After the loop over `n` pages each byte of these that is 0 in DRAM holds that of NVM if its page can
-- be written; every other byte is as it was.
pub copy_byte :
    (may_write : ℕ → Bool) (nvm : ℕ → ℕ) (n : ℕ) (dram : ℕ → ℕ) (page i : ℕ)
    → i < block_size
    → copy may_write nvm n dram (page * block_size + i) ≡ (
        if ltb page n && may_write page
        then merged (dram (page * block_size + i)) (nvm (page * block_size + i))
        else dram (page * block_size + i))
unfolding copy
copy_byte may_write nvm zero dram page i h = ground arith
copy_byte may_write nvm (suc n) dram page i h = elim (Bool-cases (page == n)) [
  | inl here ↦
      subst
        (λ k. copy may_write nvm (suc n) dram (k * block_size + i) ≡ (
          if ltb k (suc n) && may_write k
          then merged (dram (k * block_size + i)) (nvm (k * block_size + i))
          else dram (k * block_size + i)))
        (sym ((==_iff page n).0 here))
        (ground (
          arith,
          copy_byte may_write nvm n dram n i h,
          copy_page_within nvm (n * block_size) block_size (copy may_write nvm n dram) i h,
          Bool-cases (may_write n),
        ))
  | inr other ↦ ground (
    arith,
    ==_iff page n,
    copy_byte may_write nvm n dram page i h,
    copy_page_below nvm (n * block_size) block_size (copy may_write nvm n dram)
        (page * block_size + i),
    copy_page_above nvm (n * block_size) block_size (copy may_write nvm n dram)
        (page * block_size + i),
    Bool-cases (may_write n),
  )
]
