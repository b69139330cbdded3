-- ===== src/Chain/Clear.antt =====
-- Clearing a log gives all its blocks back, empty, and touches no other log.
use escort.Prelude.{
  ℕ, suc, ◌+◌, ◌≡◌, ◌≢◌, refl, ap, ◌∙◌, List, [], ◌∷◌, ◌==◌, if◌then◌else◌, count, remove,
  count-remove, update, arith,
}
use escort.Chain.{Store, clear_blocks, clear, items_of, contents}
use escort.Chain.Valid.{Valid, items_of-update}

module _ {H E : Type 0} (cap : ℕ) (k : ℕ) where
  -- What `clear` of log `k` does.
  pub record Cleared (st st' : Store H E) : Type 0 where
    pub valid : Valid cap st'
    pub none_left : st'.chain k ≡ []
    pub others : (j : ℕ) → k ≢ j → contents j st' ≡ contents j st
    pub returned : (b : ℕ) → count b st'.free ≡ count b st.free + count b (st.chain k)
    pub lent : (b : ℕ) → count b st'.free + count b st'.used ≡ count b st.free + count b st.used

  -- One round of the loop.
  abbrev given_back : ℕ → List ℕ → Store H E → Store H E
  given_back b rest st = record {
    free = b ∷ st.free;
    used = remove b st.used;
    block = update st.block b (record (st.block b) { size = 0 });
    chain = update st.chain k rest;
  }

  module _ (st : Store H E) (b : ℕ) (rest : List ℕ) (v : Valid cap st)
      (c : st.chain k ≡ b ∷ rest) where
    chain-count :
        (a : ℕ) → count a (st.chain k) ≡ (if b == a then suc (count a rest) else count a rest)
    chain-count a = ap (count a) c

    given_back-lent :
        (a : ℕ)
        → count a (b ∷ st.free) + count a (remove b st.used) ≡ count a st.free + count a st.used
    given_back-lent a =
        ground (arith, chain-count a, count-remove a b st.used, v.single a, v.owned k a)

    given_back-Valid : Valid cap (given_back b rest st)
    given_back-Valid = record {
      single = λ a. ground (arith, given_back-lent a, v.single a);
      owned = λ j a. ground (
        arith,
        chain-count a,
        count-remove a b st.used,
        v.single a,
        v.owned k a,
        v.owned j a,
        v.apart k j a,
      );
      apart = λ i j a n. ground (arith, chain-count a, v.apart i j a, v.apart k j a, v.apart i k a);
      cleared = λ a h. ground (arith, v.cleared a);
      bounded = λ a h. ground (arith, count-remove a b st.used, v.bounded a);
    }

    given_back-others : (j : ℕ) → k ≢ j → contents j (given_back b rest st) ≡ contents j st
    given_back-others j n = ground (
      arith,
      items_of-update st.block b (record (st.block b) { size = 0 }) (st.chain j),
      v.apart k j b n,
      chain-count b,
    )

  clear_blocks-Cleared :
      (xs : List ℕ) (st : Store H E)
      → Valid cap st
      → st.chain k ≡ xs
      → Cleared st (clear_blocks k xs st)
  unfolding clear_blocks
  clear_blocks-Cleared [] st v c = record {
    valid = v;
    none_left = c;
    others = λ j n. refl;
    returned = λ b. ground (arith, ap (count b) c);
    lent = λ b. refl;
  }
  clear_blocks-Cleared (b ∷ rest) st v c =
      let ih =
        clear_blocks-Cleared rest (given_back b rest st) (given_back-Valid st b rest v c)
          (ground arith) in
      record {
        valid = ih.valid;
        none_left = ih.none_left;
        others = λ j n. ih.others j n ∙ given_back-others st b rest v c j n;
        returned = λ a. ground (arith, ih.returned a, chain-count st b rest v c a);
        lent = λ a. ih.lent a ∙ given_back-lent st b rest v c a;
      }

  pub clear-Cleared : (st : Store H E) → Valid cap st → Cleared st (clear k st)
  unfolding clear
  clear-Cleared st v = clear_blocks-Cleared (st.chain k) st v refl

  -- So the log is empty after it.
  pub contents-clear : (st : Store H E) → Valid cap st → contents k (clear k st) ≡ []
  contents-clear st v = ap (items_of (clear k st).block) (clear-Cleared st v).none_left
