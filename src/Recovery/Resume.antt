-- ===== src/Recovery/Resume.antt =====
-- A replay that a crash cuts off can be begun again.
use escort.Prelude.{
  ℕ, zero, suc, ◌≤◌, ◌<◌, ◌≡◌, refl, sym, ap, ◌∙◌, fun_ext, List, [], ◌∷◌, ◌++◌, count, ◌==◌,
  update, update_self, ◌⊎◌, inl, inr, Bool-cases, ==_iff, arith,
}
use escort.Address.{add_addr}
use escort.Chain.{Block}
use escort.Plog.{Plogs, Entry, Memory, replay_block}
use escort.Recovery.{emptied, replay_all}

module _ (offset : ℕ) where
  -- One of the first `n` entries of a block goes to address `a`.
  abbrev Hit : Block (Unit {0}) Entry → ℕ → ℕ → Type 0
  Hit blk n a = (k : ℕ) × (k < n) × (add_addr (blk.entries k).addr offset ≡ a)

  replay_block_same :
      (blk : Block (Unit {0}) Entry) (n : ℕ) (m m' : Memory) (a : ℕ)
      → (m a ≡ m' a) ⊎ Hit blk n a
      → replay_block offset blk n m a ≡ replay_block offset blk n m' a
  unfolding replay_block
  replay_block_same blk zero m m' a (inl same) = same
  replay_block_same blk zero m m' a (inr (k, l, hit)) = absurd (omega arith)
  replay_block_same blk (suc n) m m' a (inl same) =
      ground (arith, replay_block_same blk n m m' a (inl same))
  replay_block_same blk (suc n) m m' a (inr (k, l, hit)) =
      elim (Bool-cases (add_addr (blk.entries n).addr offset == a)) [
        | inl here ↦ ground arith
        | inr other ↦ elim (Bool-cases (k == n)) [
          | inl last ↦ absurd (
              ground (
                arith,
                ==_iff k n,
                ==_iff (add_addr (blk.entries n).addr offset) a,
                ap (λ i. add_addr (blk.entries i).addr offset),
              ))
          | inr earlier ↦
              ground
                (arith, replay_block_same blk n m m' a (inr (k, ground (arith, ==_iff k n), hit)))
        ]
      ]

  replay_block_hits :
      (blk : Block (Unit {0}) Entry) (j n : ℕ) (m : Memory) (a : ℕ)
      → j ≤ n
      → (replay_block offset blk j m a ≡ m a) ⊎ Hit blk n a
  unfolding replay_block
  replay_block_hits blk zero n m a h = inl refl
  replay_block_hits blk (suc j) n m a h =
      elim (Bool-cases (add_addr (blk.entries j).addr offset == a)) [
        | inl here ↦
            inr
              (j, omega (arith, h), ground (arith, ==_iff (add_addr (blk.entries j).addr offset) a))
        | inr other ↦ elim (replay_block_hits blk j n m a (omega arith)) [
          | inl same ↦ inl (ground arith)
          | inr hit ↦ inr hit
        ]
      ]

  replay_block_again :
      (blk : Block (Unit {0}) Entry) (j n : ℕ) (m : Memory)
      → j ≤ n
      → replay_block offset blk n (replay_block offset blk j m) ≡ replay_block offset blk n m
  replay_block_again blk j n m h = fun_ext λ a.
      replay_block_same blk n (replay_block offset blk j m) m a (replay_block_hits blk j n m a h)

  replay_all-append :
      (xs ys : List ℕ) (st : Plogs) (nvm : Memory)
      → replay_all offset (xs ++ ys) st nvm
        ≡ replay_all offset xs (replay_all offset ys st nvm).0 (replay_all offset ys st nvm).1
  unfolding replay_all
  replay_all-append [] ys st nvm = refl
  replay_all-append (x ∷ xs) ys st nvm =
      ap (λ p. (emptied x p.0, replay_block offset (p.0.block x) (p.0.block x).size p.1))
        (replay_all-append xs ys st nvm)

  emptied_of_empty : (b : ℕ) (st : Plogs) → (st.block b).size ≡ 0 → emptied b st ≡ st
  emptied_of_empty b st h =
      ap (λ n. record st { block = update st.block b (record (st.block b) { size = n }) }) (sym h)
      ∙ ap (λ f. record st { block = f }) (update_self st.block b)

  replay_all_of_empty :
      (xs : List ℕ) (st : Plogs) (nvm : Memory)
      → ((b : ℕ) → 0 < count b xs → (st.block b).size ≡ 0)
      → replay_all offset xs st nvm ≡ (st, nvm)
  unfolding replay_all replay_block
  replay_all_of_empty [] st nvm h = refl
  replay_all_of_empty (x ∷ xs) st nvm h =
      ap (λ p. (emptied x p.0, replay_block offset (p.0.block x) (p.0.block x).size p.1))
        (replay_all_of_empty xs st nvm (λ b m. h b (ground arith)))
      ∙ ap2 (emptied_of_empty x st zero_size)
          (ap (λ n. replay_block offset (st.block x) n nvm) zero_size)
    where
      zero_size : (st.block x).size ≡ 0
      zero_size = h x (ground arith)

      ap2 :
          {s s' : Plogs} {m m' : Memory}
          → s ≡ s'
          → m ≡ m'
          → ◌≡◌ {A = Plogs × Memory} (s, m) (s', m')
      ap2 p q = cc

  size-replay_all :
      (xs : List ℕ) (st : Plogs) (nvm : Memory) (b : ℕ)
      → 0 < count b xs
      → ((replay_all offset xs st nvm).0.block b).size ≡ 0
  unfolding replay_all
  size-replay_all [] st nvm b m = absurd (omega arith)
  size-replay_all (x ∷ xs) st nvm b m = ground (arith, size-replay_all xs st nvm b)

  -- A crash after the blocks `done` and `j` entries of block `b`: the replay of the whole list from
  -- there leaves the logs and the memory that one replay without a crash leaves.
  pub replay_all_resumes :
      (later done : List ℕ) (b j : ℕ) (st : Plogs) (nvm : Memory)
      → j ≤ ((replay_all offset done st nvm).0.block b).size
      → replay_all offset (later ++ b ∷ done) (replay_all offset done st nvm).0 (
          replay_block offset
            ((replay_all offset done st nvm).0.block b)
            j
            (replay_all offset done st nvm).1)
        ≡ replay_all offset (later ++ b ∷ done) st nvm
  unfolding replay_all
  replay_all_resumes later done b j st nvm h =
      replay_all-append later (b ∷ done) st₁ cut
      ∙ ap (λ p. replay_all offset later p.0 p.1) resumed
      ∙ sym (replay_all-append later (b ∷ done) st nvm)
    where
      st₁ : Plogs
      st₁ = (replay_all offset done st nvm).0

      nvm₁ : Memory
      nvm₁ = (replay_all offset done st nvm).1

      cut : Memory
      cut = replay_block offset (st₁.block b) j nvm₁

      resumed : replay_all offset (b ∷ done) st₁ cut ≡ replay_all offset (b ∷ done) st nvm
      resumed =
          ap (λ p. (emptied b p.0, replay_block offset (p.0.block b) (p.0.block b).size p.1))
            (replay_all_of_empty done st₁ cut (size-replay_all done st nvm))
          ∙ ap (λ m. (emptied b st₁, m))
              (replay_block_again (st₁.block b) j (st₁.block b).size nvm₁ h)
