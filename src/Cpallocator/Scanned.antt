-- ===== src/Cpallocator/Scanned.antt =====
-- Which entries of a block the loop of `check_valid` takes for valid.
use escort.Prelude.{
  ℕ, zero, suc, ◌+◌, ◌<◌, ◌≤◌, ◌≡◌, ◌≢◌, sym, ap, ◌∙◌, true, false, Option, some, ◌==◌,
  if◌then◌else◌, update, ◌⊎◌, inl, inr, Option-cases, Bool-cases, ==_iff, bool_clash, arith,
}
use escort.Address.{get_index}
use escort.Bytemap
use escort.Bytemap.{Bytemap}
use escort.Chain.{Block}
use escort.Allocatorlog.{AllocEntry}
use escort.Cpallocator.{check_entry, check_block}
use escort.Cpallocator.Bytes.{check_block-Checked}

-- The mark of an entry taken away.
abbrev pub unmarked : AllocEntry → AllocEntry
unmarked entry = record entry { is_valid = false }

-- The entry as it was, or with its mark taken away.
abbrev pub IsKeptOrRefused : AllocEntry → AllocEntry → Type 0
IsKeptOrRefused entry entry' = (entry' ≡ entry) ⊎ (entry' ≡ unmarked entry)

pub IsKeptOrRefused-trans :
    (x y z : AllocEntry) → IsKeptOrRefused x y → IsKeptOrRefused y z → IsKeptOrRefused x z
IsKeptOrRefused-trans x y z (inl p) (inl q) = inl (q ∙ p)
IsKeptOrRefused-trans x y z (inl p) (inr q) = inr (q ∙ ap unmarked p)
IsKeptOrRefused-trans x y z (inr p) (inl q) = inr (q ∙ p)
IsKeptOrRefused-trans x y z (inr p) (inr q) = inr (q ∙ ap unmarked p)

-- What the loop over the entries from `i` on says of them.
pub record Scanned (fuel i : ℕ) (block block' : Block ℕ AllocEntry) (bytes bytes' : Bytemap)
    : Type 0 where
  pub judged : (j : ℕ) → IsKeptOrRefused (block.entries j) (block'.entries j)
  pub kept :
      (index : ℕ)
      → ((j : ℕ) → i ≤ j → j < i + fuel → get_index (block.entries j).addr ≢ some index)
      → bytes' index ≡ bytes index
  pub refused :
      (j index : ℕ)
      → i ≤ j
      → j < i + fuel
      → get_index (block.entries j).addr ≡ some index
      → Bytemap.is_set bytes index ≡ false
      → (block'.entries j).is_valid ≡ false
  pub accepted :
      (j index : ℕ)
      → i ≤ j
      → j < i + fuel
      → get_index (block.entries j).addr ≡ some index
      → Bytemap.is_set bytes index ≡ true
      → ((k : ℕ) → i ≤ k → k < i + fuel → get_index (block.entries k).addr ≡ some index → k ≡ j)
      → block'.entries j ≡ block.entries j

pub check_block-Scanned :
    (fuel i : ℕ) (block block' : Block ℕ AllocEntry) (bytes bytes' : Bytemap)
    → check_block fuel i block bytes ≡ some (block', bytes')
    → Scanned fuel i block block' bytes bytes'
unfolding check_block check_entry
check_block-Scanned zero i block block' bytes bytes' h = record {
  judged = λ j. inl (ground (arith, h));
  kept = λ index none_here. ground (arith, h);
  refused = λ j index a b g u. absurd (omega arith);
  accepted = λ j index a b g s only. absurd (omega arith);
}
check_block-Scanned (suc fuel) i block block' bytes bytes' h =
    elim (Option-cases (get_index (block.entries i).addr)) [
      | inl failed ↦ absurd (ground arith)
      | inr (index, got) ↦
          let rest : check_block fuel (suc i) (next_of index) (Bytemap.clear index bytes)
              ≡ some (block', bytes') =
            ground arith in
          let c =
            check_block-Scanned fuel (suc i) (next_of index) block' (Bytemap.clear index bytes)
              bytes' rest in
          let d =
            check_block-Checked fuel (suc i) (next_of index) block' (Bytemap.clear index bytes)
              bytes' rest in
          record {
            judged = λ j.
                IsKeptOrRefused-trans (block.entries j) ((next_of index).entries j)
                  (block'.entries j) (next-judged index j) (c.judged j);
            kept = λ index' none_here.
                c.kept index' (λ j a b g.
                  none_here j (omega (arith, a)) (omega (arith, b))
                    (sym (ap get_index (next-addr index j)) ∙ g))
                ∙ cleared index index'
                    (λ e. none_here i (omega arith) (omega arith) (got ∙ sym (ap some e)));
            refused = λ j index' a b g unset. elim (Bool-cases (i == j)) [
              | inl here ↦
                  ap (λ e. e.is_valid) (d.before j (ground (arith, ==_iff i j)))
                  ∙ next-refused index index' j ((==_iff i j).0 here) got g unset
              | inr apart ↦
                  c.refused j index' (ground (arith, ==_iff i j)) (omega (arith, b))
                    (ap get_index (next-addr index j) ∙ g) (still_unset index index' unset)
            ];
            accepted = λ j index' a b g set only. elim (Bool-cases (i == j)) [
              | inl here ↦
                  d.before j (ground (arith, ==_iff i j))
                  ∙ next-accepted index index' j ((==_iff i j).0 here) got g set
              | inr apart ↦
                  c.accepted j index' (ground (arith, ==_iff i j)) (omega (arith, b))
                    (ap get_index (next-addr index j) ∙ g)
                    (ap (λ byte. byte == 1)
                        (cleared index index' (λ e. bool_clash apart (
                          (==_iff i j).1
                            (only i (omega arith) (omega arith) (got ∙ sym (ap some e))))))
                      ∙ set)
                    (λ k a' b' g'.
                      only k (omega (arith, a')) (omega (arith, b'))
                        (sym (ap get_index (next-addr index k)) ∙ g'))
                  ∙ next_elsewhere index j apart
            ];
          }
    ]
  where
    next_of : ℕ → Block ℕ AllocEntry
    next_of index = record block {
      entries = update block.entries i (
          if Bytemap.is_set bytes index
          then block.entries i
          else record (block.entries i) { is_valid = false });
    }

    next-judged : (index j : ℕ) → IsKeptOrRefused (block.entries j) ((next_of index).entries j)
    next-judged index j = elim (Bool-cases (i == j)) [
      | inl here ↦ elim (Bool-cases (Bytemap.is_set bytes index)) [
        | inl set ↦ inl (ground (arith, ==_iff i j, set))
        | inr unset ↦ inr (ground (arith, ==_iff i j, unset))
      ]
      | inr apart ↦ inl (ground (arith, apart))
    ]

    next-addr : (index j : ℕ) → ((next_of index).entries j).addr ≡ (block.entries j).addr
    next-addr index j = ground (arith, Bool-cases (Bytemap.is_set bytes index), ==_iff i j)

    cleared : (index index' : ℕ) → index' ≢ index → Bytemap.clear index bytes index' ≡ bytes index'
    cleared index index' apart = ground (arith, ==_iff index index')

    still_unset :
        (index index' : ℕ)
        → Bytemap.is_set bytes index' ≡ false
        → Bytemap.is_set (Bytemap.clear index bytes) index' ≡ false
    still_unset index index' unset = ground (arith, Bool-cases (index == index'))

    same_index :
        (index index' j : ℕ)
        → i ≡ j
        → get_index (block.entries i).addr ≡ some index
        → get_index (block.entries j).addr ≡ some index'
        → index ≡ index'
    same_index index index' j e got g =
        let both : ◌≡◌ {A = Option ℕ} (some index) (some index') =
          sym got ∙ ap (λ k. get_index (block.entries k).addr) e ∙ g in
        ground arith

    next_elsewhere : (index j : ℕ) → (i == j) ≡ false → (next_of index).entries j ≡ block.entries j
    next_elsewhere index j apart = ground (arith, apart)

    next-refused :
        (index index' j : ℕ)
        → i ≡ j
        → get_index (block.entries i).addr ≡ some index
        → get_index (block.entries j).addr ≡ some index'
        → Bytemap.is_set bytes index' ≡ false
        → ((next_of index).entries j).is_valid ≡ false
    next-refused index index' j e got g unset =
        let unset_here : Bytemap.is_set bytes index ≡ false =
          ap (Bytemap.is_set bytes) (same_index index index' j e got g) ∙ unset in
        ground (arith, unset_here, ==_iff i j)

    next-accepted :
        (index index' j : ℕ)
        → i ≡ j
        → get_index (block.entries i).addr ≡ some index
        → get_index (block.entries j).addr ≡ some index'
        → Bytemap.is_set bytes index' ≡ true
        → (next_of index).entries j ≡ block.entries j
    next-accepted index index' j e got g set =
        let set_here : Bytemap.is_set bytes index ≡ true =
          ap (Bytemap.is_set bytes) (same_index index index' j e got g) ∙ set in
        ground (arith, set_here, ==_iff i j)
