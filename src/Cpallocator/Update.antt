-- ===== src/Cpallocator/Update.antt =====
-- What `checkpointing` does to the map of sizes and to the logs.
use escort.Prelude.{
  ℕ, zero, suc, ◌+◌, ◌<◌, ◌≡◌, ◌≢◌, refl, sym, ap, ◌∙◌, subst, Bool, true, false, not, Option, none,
  some, ◌>>=◌, List, [], ◌∷◌, ◌++◌, ◌==◌, inl, inr, prefix, count, Option-cases, Bool-cases, ==_iff,
  arith,
}
use escort.Address.{get_index}
use escort.Bytemap.{Bytemap, set_obj_size}
use escort.Chain.{Block, items, items_of, contents}
use escort.Chain.Valid.{Valid}
use escort.Chain.Clear.{Cleared, clear-Cleared}
use escort.Allocatorlog
use escort.Allocatorlog.{Allocatorlogs, AllocEntry, log_of, allocator_log_block_num}
use escort.World.{prev_of}
use escort.Allocator.{Jemalloc, AllocWorld}
use escort.Allocator.Delay.{IsDistinct}
use escort.Cpallocator.{apply_entries, apply_blocks, apply_threads, checkpointing}
use escort.Cpallocator.Sizes.{bind-agrees, map_of}

-- The sizes of a list of entries, one after the other.
abbrev pub record_sizes : List AllocEntry → Bytemap → Option Bytemap
record_sizes [] nvm = some nvm
record_sizes (e ∷ es) nvm =
    get_index e.addr >>= (λ index. set_obj_size index e.size nvm >>= record_sizes es)

bind_assoc :
    {A B C : Type 0} (m : Option A) (f : A → Option B) (g : B → Option C)
    → ((m >>= f) >>= g) ≡ (m >>= (λ x. f x >>= g))
bind_assoc none f g = refl
bind_assoc (some x) f g = refl

record_sizes-append :
    (xs ys : List AllocEntry) (nvm : Bytemap)
    → record_sizes (xs ++ ys) nvm ≡ (record_sizes xs nvm >>= record_sizes ys)
record_sizes-append [] ys nvm = refl
record_sizes-append (e ∷ es) ys nvm =
    bind-agrees (get_index e.addr) _ _ (λ index.
      bind-agrees (set_obj_size index e.size nvm) _ _ (record_sizes-append es ys)
      ∙ sym (bind_assoc (set_obj_size index e.size nvm) (record_sizes es) (record_sizes ys)))
    ∙ sym (
        bind_assoc (get_index e.addr) (λ index. set_obj_size index e.size nvm >>= record_sizes es)
          (record_sizes ys))

-- The entries from `i` on, `n` of them.
abbrev slice : ℕ → ℕ → (ℕ → AllocEntry) → List AllocEntry
slice zero i f = []
slice (suc n) i f = f i ∷ slice n (suc i) f

slice-last :
    (n i k : ℕ) (f : ℕ → AllocEntry) → k ≡ i + n → slice n i f ++ f k ∷ [] ≡ slice (suc n) i f
slice-last zero i k f h = ap (λ x. f x ∷ []) (omega (arith, h))
slice-last (suc n) i k f h = ap (λ l. f i ∷ l) (slice-last n (suc i) k f (omega (arith, h)))

prefix-eq-slice : (n : ℕ) (f : ℕ → AllocEntry) → prefix n f ≡ slice n 0 f
prefix-eq-slice zero f = refl
prefix-eq-slice (suc n) f =
    ap (λ l. l ++ f n ∷ []) (prefix-eq-slice n f) ∙ slice-last n 0 n f (omega arith)

apply_entries-eq :
    (fuel i : ℕ) (block : Block ℕ AllocEntry) (nvm : Bytemap)
    → apply_entries fuel i block nvm ≡ record_sizes (slice fuel i block.entries) nvm
unfolding apply_entries
apply_entries-eq zero i block nvm = refl
apply_entries-eq (suc fuel) i block nvm =
    bind-agrees (get_index (block.entries i).addr) _ _ (λ index.
      bind-agrees (set_obj_size index (block.entries i).size nvm) _ _
        (apply_entries-eq fuel (suc i) block))

apply_blocks-eq :
    (bs : List ℕ) (st : Allocatorlogs) (nvm : Bytemap)
    → apply_blocks bs st nvm ≡ record_sizes (items_of st.block bs) nvm
unfolding apply_blocks
apply_blocks-eq [] st nvm = refl
apply_blocks-eq (b ∷ bs) st nvm =
    ap (λ m. m >>= apply_entries (st.block b).size 0 (st.block b)) (apply_blocks-eq bs st nvm)
    ∙ bind-agrees (record_sizes (items_of st.block bs) nvm) _ _ (λ nvm₁.
      apply_entries-eq (st.block b).size 0 (st.block b) nvm₁
      ∙ ap (λ l. record_sizes l nvm₁)
          (sym (prefix-eq-slice (st.block b).size (st.block b).entries)))
    ∙ sym (record_sizes-append (items_of st.block bs) (items (st.block b)) nvm)

-- What the logs of the threads hold, thread by thread.
abbrev pub entries_of : Bool → List ℕ → Allocatorlogs → List AllocEntry
entries_of prev [] st = []
entries_of prev (i ∷ is) st = contents (log_of i prev) st ++ entries_of prev is st

log_of-injective : (c : Bool) (i j : ℕ) → log_of i c ≡ log_of j c → i ≡ j
log_of-injective true i j h = omega (arith, h)
log_of-injective false i j h = omega (arith, h)

log_of-apart : (c : Bool) (i j : ℕ) → log_of i c ≢ log_of j (not c)
log_of-apart true i j h = omega (arith, h)
log_of-apart false i j h = omega (arith, h)

-- Clearing the log of a thread leaves those of the others.
entries_of-clear :
    (prev : Bool) (i : ℕ) (is : List ℕ) (st : Allocatorlogs)
    → Cleared allocator_log_block_num (log_of i prev) st (Allocatorlog.clear (log_of i prev) st)
    → count i is ≡ 0
    → entries_of prev is (Allocatorlog.clear (log_of i prev) st) ≡ entries_of prev is st
entries_of-clear prev i [] st c h = refl
entries_of-clear prev i (j ∷ js) st c h =
    rw
      (c.others (log_of j prev) (λ q.
        absurd (omega (arith, ap (λ x. count x (j ∷ js)) (log_of-injective prev i j q), h, own j))))
      (ap (λ l. contents (log_of j prev) st ++ l)
        (entries_of-clear prev i js st c (ground (arith, h))))
  where
    own : (j : ℕ) → 0 < count j (j ∷ js)
    own j = ground (arith, ==_iff j j)

-- What the loop over the threads leaves.
record Applied (prev : Bool) (is : List ℕ) (st st' : Allocatorlogs) : Type 0 where
  pub valid : Valid allocator_log_block_num st'
  pub emptied : (i : ℕ) → 0 < count i is → contents (log_of i prev) st' ≡ []
  pub kept :
      (k : ℕ) → ((i : ℕ) → 0 < count i is → log_of i prev ≢ k) → contents k st' ≡ contents k st

cleared :
    (k : ℕ) (st : Allocatorlogs)
    → Valid allocator_log_block_num st
    → Cleared allocator_log_block_num k st (Allocatorlog.clear k st)
unfolding Allocatorlog.clear
cleared k st v = clear-Cleared allocator_log_block_num k st v

threads-eq :
    (prev : Bool) (is : List ℕ) (st : Allocatorlogs) (nvm : Bytemap)
    → Valid allocator_log_block_num st
    → IsDistinct is
    → map_of (apply_threads prev is st nvm) ≡ record_sizes (entries_of prev is st) nvm
unfolding apply_threads
threads-eq prev [] st nvm v d = refl
threads-eq prev (i ∷ is) st nvm v d =
    let c = cleared (log_of i prev) st v in
    let first = apply_blocks-eq (st.chain (log_of i prev)) st nvm in
    elim (Option-cases (apply_blocks (st.chain (log_of i prev)) st nvm)) [
      | inl e ↦
          rw
            (
              e,
              record_sizes-append (contents (log_of i prev) st) (entries_of prev is st) nvm,
              sym first ∙ e,
            )
            refl
      | inr (nvm', e) ↦
          rw
            (
              e,
              record_sizes-append (contents (log_of i prev) st) (entries_of prev is st) nvm,
              sym first ∙ e,
            )
            (threads-eq prev is (Allocatorlog.clear (log_of i prev) st) nvm' c.valid d.1
              ∙ ap (λ l. record_sizes l nvm') (entries_of-clear prev i is st c d.0))
    ]

threads-Applied :
    (prev : Bool) (is : List ℕ) (st st' : Allocatorlogs) (nvm nvm' : Bytemap)
    → Valid allocator_log_block_num st
    → IsDistinct is
    → apply_threads prev is st nvm ≡ some (st', nvm')
    → Applied prev is st st'
unfolding apply_threads
threads-Applied prev [] st st' nvm nvm' v d h =
    subst (Applied prev [] st) (ground (arith, h))
      (record { valid = v; emptied = λ i m. absurd (omega (arith, m)); kept = λ k n. refl })
threads-Applied prev (i ∷ is) st st' nvm nvm' v d h =
    let c = cleared (log_of i prev) st v in
    elim (Option-cases (apply_blocks (st.chain (log_of i prev)) st nvm)) [
      | inl e ↦ absurd (ground arith)
      | inr (nvm₁, e) ↦
          let a =
            threads-Applied prev is (Allocatorlog.clear (log_of i prev) st) st' nvm₁ nvm' c.valid
              d.1 (ground arith) in
          record {
            valid = a.valid;
            emptied = λ j m. elim (Bool-cases (i == j)) [
              | inl same ↦
                  subst (λ x. contents (log_of x prev) st' ≡ []) ((==_iff i j).0 same)
                    (a.kept (log_of i prev) (λ x n q.
                        omega (arith, ap (λ y. count y is) (log_of-injective prev x i q), n, d.0))
                      ∙ ap (items_of (Allocatorlog.clear (log_of i prev) st).block) c.none_left)
              | inr other ↦ a.emptied j (ground arith)
            ];
            kept = λ k n.
                a.kept k (λ x m. n x (ground arith))
                ∙ c.others k (n i (ground (arith, ==_iff i i)));
          }
    ]

module _ (J : Jemalloc) where
  open J use {Heap}

  pub record Updated (ctxs : List ℕ) (w : AllocWorld Heap) (nvm : Bytemap) (w' : AllocWorld Heap)
      : Type 0 where
    pub valid : Valid allocator_log_block_num w'.logs
    pub sizes : w'.bytemap_nvm ≡ nvm
    pub emptied :
        (i : ℕ) → 0 < count i ctxs → contents (log_of i (prev_of w.global_epoch)) w'.logs ≡ []
    pub kept :
        (i : ℕ)
        → contents (log_of i (not (prev_of w.global_epoch))) w'.logs
          ≡ contents (log_of i (not (prev_of w.global_epoch))) w.logs
    pub bytes : w'.bytemap ≡ w.bytemap
    pub heap : w'.heap ≡ w.heap

  -- In a valid store and for distinct threads `checkpointing` succeeds where the sizes of the entries in
  -- the logs of the previous epoch can be recorded one after the other, thread by thread and oldest entry
  -- first; the map of sizes in NVM is then what this recording leaves. It empties those logs, and touches
  -- neither the logs of the other epoch nor the maps of bytes.
  pub checkpointing-Updated :
      (ctxs : List ℕ) (w : AllocWorld Heap) (nvm : Bytemap)
      → Valid allocator_log_block_num w.logs
      → IsDistinct ctxs
      → record_sizes (entries_of (prev_of w.global_epoch) ctxs w.logs) w.bytemap_nvm ≡ some nvm
      → (w' : AllocWorld Heap) × (checkpointing J ctxs w ≡ some w') × Updated ctxs w nvm w'
  unfolding checkpointing
  checkpointing-Updated ctxs w nvm v d h =
      let prev : Bool = prev_of w.global_epoch in
      let eq = threads-eq prev ctxs w.logs w.bytemap_nvm v d ∙ h in
      elim (Option-cases (apply_threads prev ctxs w.logs w.bytemap_nvm)) [
        | inl e ↦ absurd (ground (arith, sym (ap map_of e) ∙ eq))
        | inr ((st, nvm'), e) ↦
            let a = threads-Applied prev ctxs w.logs st w.bytemap_nvm nvm' v d e in
            (
              record w { logs = st; bytemap_nvm = nvm' },
              ground (arith, e),
              record {
                valid = a.valid;
                sizes = ground (arith, sym (ap map_of e) ∙ eq);
                emptied = a.emptied;
                kept = λ i. a.kept (log_of i (not prev)) (λ j m. log_of-apart prev j i);
                bytes = refl;
                heap = refl;
              },
            )
      ]
