-- ===== src/Cpallocator/Sizes.antt =====
-- Of the logs, `checkpointing` reads the addresses and sizes of the entries.
use escort.Prelude.{
  ℕ, zero, suc, ◌≡◌, refl, sym, ap, ◌∙◌, subst, Bool, Option, none, some, ◌>>=◌, List, [], ◌∷◌, inl,
  inr, Option-cases, arith,
}
use escort.Address.{get_index}
use escort.Bytemap.{Bytemap, set_obj_size}
use escort.Chain
use escort.Chain.{Block}
use escort.Allocatorlog
use escort.Allocatorlog.{Allocatorlogs, AllocEntry, log_of}
use escort.World.{prev_of}
use escort.Allocator.{Jemalloc, AllocWorld}
use escort.Cpallocator.{
  apply_entries, apply_blocks, apply_threads, check_threads, check_valid, checkpointing,
}
use escort.Cpallocator.Logs.{check_valid-Passed}

-- Logs that differ at most in the marks and headers.
pub record SameSizes (st st' : Allocatorlogs) : Type 0 where
  pub same_chain : (k : ℕ) → st'.chain k ≡ st.chain k
  pub same_size : (b : ℕ) → (st'.block b).size ≡ (st.block b).size
  pub same_addr : (b j : ℕ) → ((st'.block b).entries j).addr ≡ ((st.block b).entries j).addr
  pub same_obj : (b j : ℕ) → ((st'.block b).entries j).size ≡ ((st.block b).entries j).size

pub bind-agrees :
    {A B : Type 0} (m : Option A) (f g : A → Option B)
    → ((x : A) → f x ≡ g x)
    → (m >>= f) ≡ (m >>= g)
bind-agrees none f g h = refl
bind-agrees (some x) f g h = h x

apply_entries-agrees :
    (fuel i : ℕ) (block block' : Block ℕ AllocEntry) (nvm : Bytemap)
    → ((j : ℕ) → (block'.entries j).addr ≡ (block.entries j).addr)
    → ((j : ℕ) → (block'.entries j).size ≡ (block.entries j).size)
    → apply_entries fuel i block' nvm ≡ apply_entries fuel i block nvm
unfolding apply_entries
apply_entries-agrees zero i block block' nvm a o = refl
apply_entries-agrees (suc fuel) i block block' nvm a o =
    rw (a i, o i)
      (bind-agrees (get_index (block.entries i).addr) _ _ (λ index.
        bind-agrees (set_obj_size index (block.entries i).size nvm) _ _
          (λ nvm'. apply_entries-agrees fuel (suc i) block block' nvm' a o)))

apply_blocks-agrees :
    (bs : List ℕ) (st st' : Allocatorlogs) (nvm : Bytemap)
    → SameSizes st st'
    → apply_blocks bs st' nvm ≡ apply_blocks bs st nvm
unfolding apply_blocks
apply_blocks-agrees [] st st' nvm s = refl
apply_blocks-agrees (b ∷ bs) st st' nvm s = rw (apply_blocks-agrees bs st st' nvm s) (
    bind-agrees (apply_blocks bs st nvm) _ _ (λ nvm₁.
      ap (λ n. apply_entries n 0 (st'.block b) nvm₁) (s.same_size b)
      ∙ apply_entries-agrees (st.block b).size 0 (st.block b) (st'.block b) nvm₁ (s.same_addr b)
          (s.same_obj b)))

clear_blocks-SameSizes :
    (k : ℕ) (bs : List ℕ) (st st' : Allocatorlogs)
    → SameSizes st st'
    → SameSizes (Chain.clear_blocks k bs st) (Chain.clear_blocks k bs st')
unfolding Chain.clear_blocks Chain.push
clear_blocks-SameSizes k [] st st' s = s
clear_blocks-SameSizes k (b ∷ bs) st st' s = clear_blocks-SameSizes k bs _ _ (record {
  same_chain = λ j. ground (arith, s.same_chain j);
  same_size = λ c. ground (arith, s.same_size c);
  same_addr = λ c j. ground (arith, s.same_addr c j);
  same_obj = λ c j. ground (arith, s.same_obj c j);
})

clear-SameSizes :
    (k : ℕ) (st st' : Allocatorlogs)
    → SameSizes st st'
    → SameSizes (Allocatorlog.clear k st) (Allocatorlog.clear k st')
unfolding Allocatorlog.clear Chain.clear
clear-SameSizes k st st' s =
    subst (λ bs. SameSizes (Chain.clear_blocks k (st.chain k) st) (Chain.clear_blocks k bs st'))
      (sym (s.same_chain k)) (clear_blocks-SameSizes k (st.chain k) st st' s)

-- The map of sizes that a call leaves.
abbrev pub map_of {ℓ} : {A : Type ℓ} → Option (A × Bytemap) → Option Bytemap
map_of none = none
map_of (some (a, nvm)) = some nvm

apply_threads-agrees :
    (prev : Bool) (is : List ℕ) (st st' : Allocatorlogs) (nvm : Bytemap)
    → SameSizes st st'
    → map_of (apply_threads prev is st' nvm) ≡ map_of (apply_threads prev is st nvm)
unfolding apply_threads
apply_threads-agrees prev [] st st' nvm s = refl
apply_threads-agrees prev (i ∷ is) st st' nvm s =
    rw (s.same_chain (log_of i prev), apply_blocks-agrees (st.chain (log_of i prev)) st st' nvm s)
      (elim (Option-cases (apply_blocks (st.chain (log_of i prev)) st nvm)) [
        | inl failed ↦ rw failed refl
        | inr (nvm', e) ↦ rw e (
            apply_threads-agrees prev is (Allocatorlog.clear (log_of i prev) st)
              (Allocatorlog.clear (log_of i prev) st') nvm'
              (clear-SameSizes (log_of i prev) st st' s))
      ])

module _ (J : Jemalloc) where
  open J use {Heap}

  abbrev pub size_map : Option (AllocWorld Heap) → Option Bytemap
  size_map none = none
  size_map (some w) = some w.bytemap_nvm

  pub checkpointing-map :
      (ctxs : List ℕ) (w : AllocWorld Heap)
      → size_map (checkpointing J ctxs w)
        ≡ map_of (apply_threads (prev_of w.global_epoch) ctxs w.logs w.bytemap_nvm)
  unfolding checkpointing
  checkpointing-map ctxs w =
      elim (Option-cases (apply_threads (prev_of w.global_epoch) ctxs w.logs w.bytemap_nvm)) [
        | inl failed ↦ rw failed refl
        | inr (r, e) ↦ rw e refl
      ]

  check_valid_frame :
      (ctxs : List ℕ) (w w' : AllocWorld Heap)
      → check_valid J ctxs w ≡ some w'
      → (w'.global_epoch ≡ w.global_epoch) × (w'.bytemap_nvm ≡ w.bytemap_nvm)
  unfolding check_valid
  check_valid_frame ctxs w w' h =
      elim (Option-cases
        (check_threads (prev_of w.global_epoch) ctxs w.logs (w.bytemap (prev_of w.global_epoch)))) [
          | inl failed ↦ absurd (ground arith)
          | inr (r, e) ↦ (ground arith, ground arith)
        ]

  -- A `check_valid` that succeeds makes no difference to the map of sizes that `checkpointing` leaves: the
  -- marks that it sets are not read, and a block that was allocated and freed in the epoch gets its size
  -- in the map as one that was only allocated.
  pub check_valid_unused :
      (ctxs : List ℕ) (w w' : AllocWorld Heap)
      → check_valid J ctxs w ≡ some w'
      → size_map (checkpointing J ctxs w') ≡ size_map (checkpointing J ctxs w)
  check_valid_unused ctxs w w' h =
      let (p, other) = check_valid-Passed J ctxs w w' h in
      let (same_epoch, same_map) = check_valid_frame ctxs w w' h in
      let s : SameSizes w.logs w'.logs = record {
        same_chain = λ k. ap (λ f. f k) p.same_chain;
        same_size = p.same_size;
        same_addr = p.same_addr;
        same_obj = p.same_obj;
      } in
      checkpointing-map ctxs w'
      ∙ ap (λ e. map_of (apply_threads (prev_of e) ctxs w'.logs w'.bytemap_nvm)) same_epoch
      ∙ ap (λ m. map_of (apply_threads (prev_of w.global_epoch) ctxs w'.logs m)) same_map
      ∙ apply_threads-agrees (prev_of w.global_epoch) ctxs w.logs w'.logs w.bytemap_nvm s
      ∙ sym (checkpointing-map ctxs w)
