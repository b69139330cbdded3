-- ===== src/Snapshot/Visits.antt =====
-- The loops of `log_persistence_unit` visit every line on the lists of the threads, and end with
-- every marked line of the epoch in a log.
use escort.Prelude.{
  ℕ, zero, suc, ◌+◌, ◌-◌, ◌/◌, ◌≤◌, ◌<◌, ◌≡◌, refl, sym, ap, ◌∙◌, subst, inl, inr, Bool, Option,
  some, List, [], ◌∷◌, update, count, length, Bool-cases, ◌>>=◌, arith,
}
use escort.Address.{num_lines, line_addr, get_index, add_addr, add_addr-line, cache_line_size}
use escort.Bitmap
use escort.Bitmap.{is_set}
use escort.Addrlist.{Addrlist, Region}
use escort.Plog.{Cacheline, Entry}
use escort.World.{World, put, prev_of}
use escort.RedoLog.{RedoLogs}
use escort.Checkpoint.{
  log_line, log_lines, log_regions, log_threads, log_persistence_unit, nvm_heap_update_unit,
}
use escort.Snapshot.{nvm_addr, Kept, stored, pending, logged, Inv, visit}
use escort.Snapshot.Steps.{Step-Inv}
use escort.Snapshot.Update.{Boundary, Boundary-Inv, update_stores}

-- The lines of a list of regions, in the order of the loops, before those of `rest`.
abbrev pub lines_onto : ℕ → ℕ → List ℕ → List ℕ
lines_onto l zero rest = rest
lines_onto l (suc n) rest = l ∷ lines_onto (suc l) n rest

abbrev pub region_line : Region → ℕ
region_line (addr, n) = (addr - line_addr 0) / cache_line_size

abbrev pub lines : Addrlist → List ℕ → List ℕ
lines [] rest = rest
lines ((addr, n) ∷ rs) rest = lines_onto (region_line (addr, n)) n (lines rs rest)

abbrev pub visits : Bool → List ℕ → (ℕ → Bool → Addrlist) → List ℕ
visits prev [] list = []
visits prev (i ∷ is) list = lines (list i prev) (visits prev is list)

-- A region begins where a line begins, and lies within the heap.
abbrev pub InHeap : Addrlist → Type 0
InHeap [] = Unit
InHeap ((addr, n) ∷ rs) =
    (addr ≡ line_addr (region_line (addr, n))) × (region_line (addr, n) + n ≤ num_lines) × InHeap rs

-- A thread is registered once, and its list is of regions of the heap.
abbrev pub Registered : Bool → List ℕ → (ℕ → Bool → Addrlist) → Type 0
Registered prev [] list = Unit
Registered prev (i ∷ is) list = (count i is ≡ 0) × InHeap (list i prev) × Registered prev is list

index_of : (addr l : ℕ) → addr ≡ line_addr l → get_index addr ≡ some l
unfolding get_index
index_of addr l e = ground arith

-- The list of a thread that is not visited does not matter.
visits-update :
    (prev : Bool) (is : List ℕ) (list : ℕ → Bool → Addrlist) (i : ℕ) (new : Bool → Addrlist)
    → count i is ≡ 0
    → visits prev is (update list i new) ≡ visits prev is list
visits-update prev [] list i new h = refl
visits-update prev (j ∷ is) list i new h = ground (arith, visits-update prev is list i new)

Registered-update :
    (prev : Bool) (is : List ℕ) (list : ℕ → Bool → Addrlist) (i : ℕ) (new : Bool → Addrlist)
    → count i is ≡ 0
    → Registered prev is list
    → Registered prev is (update list i new)
Registered-update prev [] list i new h r = tt
Registered-update prev (j ∷ is) list i new h r =
    (r.0, subst InHeap (kept) (r.1), Registered-update prev is list i new (ground arith) r.2)
  where
    kept : list j prev ≡ update list i new j prev
    kept = ground arith

module _ (L : RedoLogs) (offset : ℕ) (ctxs : List ℕ) (prev : Bool) (snapshot : ℕ → Cacheline) where
  open L use {State, room, push_total}

  -- A part of the loops has run, up to the lines of `todo`; there is room for these in log 0.
  record Run (todo : List ℕ) (w w' : World State) : Type 0 where
    inv : Inv L offset ctxs prev snapshot w' todo
    budget : length todo ≤ room 0 w'.logs
    same_lists : w'.addrlist ≡ w.addrlist

  abbrev RunsTo : Option (World State) → List ℕ → World State → Type 0
  RunsTo result todo w = (w' : World State) × (result ≡ some w') × Run todo w w'

  log_line_total :
      (l : ℕ) (todo : List ℕ) (w : World State)
      → Inv L offset ctxs prev snapshot w (l ∷ todo)
      → l < num_lines
      → suc (length todo) ≤ room 0 w.logs
      → RunsTo (log_line L prev (line_addr l) l w) todo w
  unfolding log_line
  log_line_total l todo w v h space = elim (Bool-cases (is_set (w.bitmap prev) l)) [
    | inr clear ↦ (
      w,
      ground arith,
      record {
        inv = Step-Inv L offset ctxs prev (visit h (ground arith)) v;
        budget = omega arith;
        same_lists = refl;
      },
    )
    | inl bit ↦
        let entry : Entry = record { addr = line_addr l; val = w.dram (line_addr l) } in
        let (logs', got, left) = push_total 0 entry w.logs v.valid (omega arith) in
        (
          record w { logs = logs'; bitmap = put prev (Bitmap.clear l (w.bitmap prev)) w.bitmap },
          ground arith,
          record {
            inv = Step-Inv L offset ctxs prev (visit h (ground arith)) v;
            budget = omega arith;
            same_lists = refl;
          },
        )
  ]

  -- Two parts of the loops in a row.
  Run-bind :
      (m : Option (World State)) (f : World State → Option (World State)) (w : World State)
      {todo todo' : List ℕ}
      → RunsTo m todo w
      → ((w₁ : World State) → Run todo w w₁ → RunsTo (f w₁) todo' w₁)
      → RunsTo (m >>= f) todo' w
  Run-bind m f w (w₁, e₁, r₁) next =
      let (w₂, e₂, r₂) = next w₁ r₁ in
      (
        w₂,
        rw e₁ e₂,
        record { inv = r₂.inv; budget = r₂.budget; same_lists = r₂.same_lists ∙ r₁.same_lists },
      )

  log_lines_total :
      (n l : ℕ) (todo : List ℕ) (w : World State)
      → Inv L offset ctxs prev snapshot w (lines_onto l n todo)
      → l + n ≤ num_lines
      → length (lines_onto l n todo) ≤ room 0 w.logs
      → RunsTo (log_lines L n prev (line_addr l) l w) todo w
  unfolding log_lines
  log_lines_total zero l todo w v h space =
      (w, refl, record { inv = v; budget = space; same_lists = refl })
  log_lines_total (suc n) l todo w v h space =
      Run-bind (log_line L prev (line_addr l) l w)
        (λ u. log_lines L n prev (add_addr (line_addr l) cache_line_size) (suc l) u) w
        (log_line_total l (lines_onto (suc l) n todo) w v (omega arith) space)
        (λ w₁ r₁.
          rw (add_addr-line l (omega arith))
            (log_lines_total n (suc l) todo w₁ r₁.inv (omega arith) r₁.budget))

  log_regions_total :
      (regions : Addrlist) (todo : List ℕ) (w : World State)
      → Inv L offset ctxs prev snapshot w (lines regions todo)
      → InHeap regions
      → length (lines regions todo) ≤ room 0 w.logs
      → RunsTo (log_regions L prev regions w) todo w
  unfolding log_regions
  log_regions_total [] todo w v h space =
      (w, refl, record { inv = v; budget = space; same_lists = refl })
  log_regions_total ((addr, n) ∷ rest) todo w v h space =
      rw (index_of addr (region_line (addr, n)) h.0) (
        Run-bind (log_lines L n prev addr (region_line (addr, n)) w)
          (λ u. log_regions L prev rest u) w
          (subst (λ a. RunsTo (log_lines L n prev a (region_line (addr, n)) w) (lines rest todo) w)
            (sym h.0) (log_lines_total n (region_line (addr, n)) (lines rest todo) w v (h.1) space))
          (λ w₁ r₁. log_regions_total rest todo w₁ r₁.inv h.2 r₁.budget))

  relist :
      (w : World State) (todo : List ℕ) (list : ℕ → Bool → Addrlist)
      → Inv L offset ctxs prev snapshot w todo
      → Inv L offset ctxs prev snapshot (record w { addrlist = list }) todo
  relist w todo list v = record {
    valid = v.valid;
    unwritten = v.unwritten;
    apart = v.apart;
    planned = v.planned;
    entries = v.entries;
    kept = λ l h. same l (v.kept l h);
  }
    where
      same :
          (l : ℕ)
          → Kept L offset ctxs prev snapshot w l
          → Kept L offset ctxs prev snapshot (record w { addrlist = list }) l
      same l (stored s) = stored s
      same l (pending p) = pending p
      same l (logged k m h) = logged k m h

  log_threads_total :
      (is : List ℕ) (w : World State)
      → Inv L offset ctxs prev snapshot w (visits prev is w.addrlist)
      → Registered prev is w.addrlist
      → length (visits prev is w.addrlist) ≤ room 0 w.logs
      → (w' : World State) × (log_threads L prev is w ≡ some w')
        × Inv L offset ctxs prev snapshot w' []
  unfolding log_threads
  log_threads_total [] w v r space = (w, refl, v)
  log_threads_total (i ∷ is) w v r space =
      let (w₁, e₁, r₁) =
        log_regions_total (w.addrlist i prev) (visits prev is w.addrlist) w v (r.1) space in
      let new : (Bool → Addrlist) = put prev [] (w₁.addrlist i) in
      let same : visits prev is (update w₁.addrlist i new) ≡ visits prev is w.addrlist =
        visits-update prev is w₁.addrlist i new (r.0) ∙ ap (visits prev is) r₁.same_lists in
      let (w₂, e₂, v₂) =
        log_threads_total is (record w₁ { addrlist = update w₁.addrlist i new })
          (relist w₁ (visits prev is (update w₁.addrlist i new)) (update w₁.addrlist i new)
            (subst (Inv L offset ctxs prev snapshot w₁) (sym same) r₁.inv))
          (Registered-update prev is w₁.addrlist i new (r.0)
            (subst (Registered prev is) (sym r₁.same_lists) r.2))
          (rw same r₁.budget) in
      (w₂, rw e₁ e₂, v₂)

-- At the end of an epoch, with room in the log of the checkpointing thread for the marked lines, the
-- loops of `log_persistence_unit` run to their end; and after `nvm_heap_update_unit` the heap in NVM
-- is the heap in DRAM, line by line.
pub checkpoint_total :
    (L : RedoLogs) (offset : ℕ) (ctxs : List ℕ) (w : World L.State)
    → (let prev = prev_of w.global_epoch in
        let todo = visits prev ctxs w.addrlist in
        Boundary L offset ctxs prev w todo
        × Registered prev ctxs w.addrlist
        × (length todo ≤ L.room 0 w.logs))
    → (w' : World L.State) × (log_persistence_unit L ctxs w ≡ some w')
      × ((l : ℕ)
          → l < num_lines
          → (nvm_heap_update_unit L offset ctxs w').nvm (nvm_addr offset l) ≡ w.dram (line_addr l))
unfolding log_persistence_unit
checkpoint_total L offset ctxs w (b, r, space) =
    let prev = prev_of w.global_epoch in
    let snapshot : (ℕ → Cacheline) = λ l. w.dram (line_addr l) in
    let v = Boundary-Inv L offset ctxs prev w (visits prev ctxs w.addrlist) b in
    let (w', e, v') = log_threads_total L offset ctxs prev snapshot ctxs w v r space in
    (w', e, λ l h. update_stores L offset snapshot l h ctxs prev w' v')
