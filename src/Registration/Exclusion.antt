-- ===== src/Registration/Exclusion.antt =====
-- The execute right excludes, so that no round sees the list of threads change, and no thread is in it
-- twice.
use escort.Prelude.{
  ℕ, suc, ◌≤◌, ◌≡◌, refl, ap, Bool, true, false, List, [], ◌∷◌, ◌++◌, ◌==◌, if◌then◌else◌, count,
  ==_iff, Bool-cases, inl, inr, arith,
}
use escort.Allocator.Delay.{IsDistinct}
use escort.Registration.{
  Call, init_call, finalize_call, Pc, outside, counted, granted, entered, uncounted, MasterPc,
  wants_right, in_round, sleeping, Registry, Step, thread_init, thread_finalize, take_right, enter,
  uncount, release, begin_round, set_epoch, end_round, go_on, Reach, start, later,
}

-- A thread that has the right.
abbrev holds : Pc → Bool
holds outside = false
holds (counted c) = false
holds (granted c) = true
holds (entered c) = true
holds uncounted = true

abbrev is_in_round : MasterPc → Bool
is_in_round wants_right = false
is_in_round in_round = true
is_in_round sleeping = false

-- A thread that is not in the list, though it may be on its way.
abbrev is_new : Pc → Bool
is_new outside = false
is_new (counted init_call) = true
is_new (counted finalize_call) = false
is_new (granted init_call) = true
is_new (granted finalize_call) = false
is_new (entered c) = false
is_new uncounted = false

record Inv (s : Registry) : Type 0 where
  pub free : s.has_execute_right ≡ false → (i : ℕ) → holds (s.pc i) ≡ false
  pub no_round : s.has_execute_right ≡ false → is_in_round s.master ≡ false
  pub alone : is_in_round s.master ≡ true → (i : ℕ) → holds (s.pc i) ≡ false
  pub single : (i j : ℕ) → holds (s.pc i) ≡ true → holds (s.pc j) ≡ true → i ≡ j
  pub once : (i : ℕ) → count i s.ctx_array ≤ 1
  pub absent : (i : ℕ) → s.has_ctx i ≡ false → count i s.ctx_array ≡ 0
  pub new : (i : ℕ) → is_new (s.pc i) ≡ true → (count i s.ctx_array ≡ 0) × (s.has_ctx i ≡ true)

count-last :
    (i j : ℕ) (xs : List ℕ)
    → count j (xs ++ i ∷ []) ≡ (if i == j then suc (count j xs) else count j xs)
count-last i j [] = refl
count-last i j (x ∷ xs) = ground (arith, count-last i j xs)

fresh : (c : Call) → is_new (granted c) ≡ is_new (counted c)
fresh init_call = refl
fresh finalize_call = refl

Step-Inv : {s t : Registry} → Step s t → Inv s → Inv t
Step-Inv (thread_init i p h) v = record {
  free = λ q j. ground (arith, v.free q j);
  no_round = v.no_round;
  alone = λ q j. ground (arith, v.alone q j);
  single = λ j k a b. ground (arith, v.single j k);
  once = v.once;
  absent = λ j q. ground (arith, v.absent j);
  new = λ j q. elim (Bool-cases (i == j)) [
    | inl same ↦ (ground (arith, v.absent i h, ==_iff i j), ground arith)
    | inr other ↦ (ground (arith, v.new j), ground (arith, v.new j))
  ];
}
Step-Inv (thread_finalize i p h) v = record {
  free = λ q j. ground (arith, v.free q j);
  no_round = v.no_round;
  alone = λ q j. ground (arith, v.alone q j);
  single = λ j k a b. ground (arith, v.single j k);
  once = v.once;
  absent = v.absent;
  new = λ j q. (ground (arith, v.new j), ground (arith, v.new j));
}
Step-Inv (take_right i c p h) v = record {
  free = λ q j. absurd (ground arith);
  no_round = λ q. absurd (ground arith);
  alone = λ q j. absurd (ground (arith, v.no_round h));
  single = λ j k a b. ground (arith, v.free h j, v.free h k, ==_iff i j, ==_iff i k);
  once = v.once;
  absent = v.absent;
  new = λ j q. (ground (arith, v.new j, fresh c), ground (arith, v.new j, fresh c));
}
Step-Inv {s} (enter i init_call p) v = record {
  free = λ q j. ground (arith, v.free q j, v.free q i);
  no_round = v.no_round;
  alone = λ q j. ground (arith, v.alone q j, v.alone q i);
  single =
      λ j k a b. ground (arith, v.single j k, v.single i j, v.single i k, ==_iff i j, ==_iff i k);
  once = λ j. ground (arith, v.once j, count-last i j s.ctx_array, v.new i, ==_iff i j);
  absent = λ j q. ground (arith, v.absent j, count-last i j s.ctx_array, v.new i, ==_iff i j);
  new = λ j q.
      (ground (arith, v.new j, count-last i j s.ctx_array, ==_iff i j), ground (arith, v.new j));
}
Step-Inv {s} (enter i finalize_call p) v = record {
  free = λ q j. ground (arith, v.free q j, v.free q i);
  no_round = v.no_round;
  alone = λ q j. ground (arith, v.alone q j, v.alone q i);
  single =
      λ j k a b. ground (arith, v.single j k, v.single i j, v.single i k, ==_iff i j, ==_iff i k);
  once = v.once;
  absent = v.absent;
  new = λ j q. (ground (arith, v.new j), ground (arith, v.new j));
}
Step-Inv (uncount i c p) v = record {
  free = λ q j. ground (arith, v.free q j, v.free q i);
  no_round = v.no_round;
  alone = λ q j. ground (arith, v.alone q j, v.alone q i);
  single =
      λ j k a b. ground (arith, v.single j k, v.single i j, v.single i k, ==_iff i j, ==_iff i k);
  once = v.once;
  absent = v.absent;
  new = λ j q. (ground (arith, v.new j), ground (arith, v.new j));
}
Step-Inv {s} (release i p) v = record {
  free = λ q j. ground (arith, v.single i j, ==_iff i j, Bool-cases (holds (s.pc j)));
  no_round = λ q. elim (Bool-cases (is_in_round s.master)) [
    | inl busy ↦ absurd (ground (arith, v.alone busy i))
    | inr idle ↦ idle
  ];
  alone = λ q j. ground (arith, v.alone q j);
  single = λ j k a b. ground (arith, v.single j k);
  once = v.once;
  absent = v.absent;
  new = λ j q. (ground (arith, v.new j), ground (arith, v.new j));
}
Step-Inv (begin_round m h) v = record {
  free = λ q j. absurd (ground arith);
  no_round = λ q. absurd (ground arith);
  alone = λ q j. v.free h j;
  single = v.single;
  once = v.once;
  absent = v.absent;
  new = v.new;
}
Step-Inv (set_epoch e m) v = record {
  free = v.free;
  no_round = v.no_round;
  alone = v.alone;
  single = v.single;
  once = v.once;
  absent = v.absent;
  new = v.new;
}
Step-Inv (end_round m) v = record {
  free = λ q j. v.alone (ground arith) j;
  no_round = λ q. refl;
  alone = λ q j. absurd (ground arith);
  single = v.single;
  once = v.once;
  absent = v.absent;
  new = v.new;
}
Step-Inv (go_on m h) v = record {
  free = v.free;
  no_round = λ q. refl;
  alone = λ q j. absurd (ground arith);
  single = v.single;
  once = v.once;
  absent = v.absent;
  new = v.new;
}

Reach-Inv : {s : Registry} → Reach s → Inv s
Reach-Inv (start e) = record {
  free = λ q i. refl;
  no_round = λ q. refl;
  alone = λ q i. refl;
  single = λ i j a b. absurd (ground arith);
  once = λ i. omega arith;
  absent = λ i q. refl;
  new = λ i q. absurd (ground arith);
}
Reach-Inv (later r st) = Step-Inv st (Reach-Inv r)

count-IsDistinct : (xs : List ℕ) → ((i : ℕ) → count i xs ≤ 1) → IsDistinct xs
count-IsDistinct [] h = tt
count-IsDistinct (x ∷ xs) h =
    (ground (arith, h x, ==_iff x x), count-IsDistinct xs (λ i. ground (arith, h i)))

-- While a round runs, no step of any thread changes the lists of contexts.
lists_kept :
    {s t : Registry}
    → Inv s
    → s.master ≡ in_round
    → Step s t
    → (t.ctx_array ≡ s.ctx_array) × (t.ctx_delete_array ≡ s.ctx_delete_array)
lists_kept v m (thread_init i p h) = (refl, refl)
lists_kept v m (thread_finalize i p h) = (refl, refl)
lists_kept v m (take_right i c p h) = (refl, refl)
lists_kept v m (enter i c p) = absurd (ground (arith, v.alone (ap is_in_round m) i))
lists_kept v m (uncount i c p) = (refl, refl)
lists_kept v m (release i p) = (refl, refl)
lists_kept v m (begin_round q h) = (refl, refl)
lists_kept v m (set_epoch e q) = (refl, refl)
lists_kept v m (end_round q) = (refl, refl)
lists_kept v m (go_on q h) = (refl, refl)

-- In every reachable state in which a round of the checkpointing thread runs, no thread is in `_ctx_array`
-- twice, and no step of any thread changes the lists of contexts.
pub round_keeps_threads :
    (s t : Registry)
    → Reach s
    → s.master ≡ in_round
    → Step s t
    → IsDistinct s.ctx_array
      × (t.ctx_array ≡ s.ctx_array)
      × (t.ctx_delete_array ≡ s.ctx_delete_array)
round_keeps_threads s t r m st =
    let v = Reach-Inv r in
    let (array, deleted) = lists_kept v m st in
    (count-IsDistinct s.ctx_array v.once, array, deleted)
