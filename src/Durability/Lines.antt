-- ===== src/Durability/Lines.antt =====
-- Which lines the loops of `log_persistence_unit` will visit, given the lists of the threads.
use escort.Prelude.{
  ℕ, zero, suc, ◌+◌, ◌≤◌, ◌<◌, ◌≡◌, ap, Bool, List, [], ◌∷◌, ◌++◌, count, count-append, ==_iff,
  Bool-cases, inl, inr, ◌==◌, arith,
}
use escort.Address.{line_addr}
use escort.Addrlist.{Addrlist, Region}
use escort.Snapshot.Visits.{lines, lines_onto, region_line}
use escort.Durability.{threads, Task, visit_line, clear_list, tasks_onto, tasks}

pub threads_member : (n i : ℕ) → i < n → 0 < count i (threads n)
threads_member zero i h = absurd (omega arith)
threads_member (suc n) i h =
    ground (arith, threads_member n i, count-append i (threads n) (n ∷ []), ==_iff n i)

abbrev pub lines_of : List Task → List ℕ
lines_of [] = []
lines_of (visit_line l ∷ rest) = l ∷ lines_of rest
lines_of (clear_list i ∷ rest) = lines_of rest

count-lines_onto :
    (l first m : ℕ) (rest : List ℕ)
    → count l (lines_onto first m rest) ≡ count l (lines_onto first m []) + count l rest
count-lines_onto l first zero rest = omega arith
count-lines_onto l first (suc m) rest = ground (arith, count-lines_onto l (suc first) m rest)

lines_onto_member :
    (l first m : ℕ) → first ≤ l → l < first + m → 0 < count l (lines_onto first m [])
lines_onto_member l first zero a b = absurd (omega arith)
lines_onto_member l first (suc m) a b =
    ground (arith, ==_iff first l, lines_onto_member l (suc first) m)

pub count-lines :
    (l : ℕ) (rs : Addrlist) (rest : List ℕ)
    → count l (lines rs rest) ≡ count l (lines rs []) + count l rest
count-lines l [] rest = omega arith
count-lines l ((addr, m) ∷ rs) rest = omega (
  arith,
  count-lines_onto l (region_line (addr, m)) m (lines rs rest),
  count-lines_onto l (region_line (addr, m)) m (lines rs []),
  count-lines l rs rest,
)

-- A list keeps its lines when a region is appended, and gains those of the region.
pub count-lines-append :
    (l : ℕ) (rs : Addrlist) (r : Region)
    → count l (lines (rs ++ r ∷ []) []) ≡ count l (lines rs []) + count l (lines (r ∷ []) [])
count-lines-append l [] r = omega arith
count-lines-append l ((addr, m) ∷ rs) r = omega (
  arith,
  count-lines_onto l (region_line (addr, m)) m (lines (rs ++ r ∷ []) []),
  count-lines_onto l (region_line (addr, m)) m (lines rs []),
  count-lines-append l rs r,
)

pub region_member :
    (l first m : ℕ) → first ≤ l → l < first + m → 0 < count l (lines ((line_addr first, m) ∷ []) [])
region_member l first m a b = rw (found) (lines_onto_member l first m a b)
  where
    found : region_line (line_addr first, m) ≡ first
    found = omega arith

count-tasks_onto :
    (l : ℕ) (ls : List ℕ) (rest : List Task)
    → count l (lines_of (tasks_onto ls rest)) ≡ count l ls + count l (lines_of rest)
count-tasks_onto l [] rest = omega arith
count-tasks_onto l (x ∷ ls) rest = ground (arith, count-tasks_onto l ls rest)

pub tasks_member :
    (prev : Bool) (is : List ℕ) (list : ℕ → Bool → Addrlist) (i l : ℕ)
    → 0 < count i is
    → 0 < count l (lines (list i prev) [])
    → 0 < count l (lines_of (tasks prev is list))
tasks_member prev [] list i l m h = absurd (omega arith)
tasks_member prev (j ∷ is) list i l m h = elim (Bool-cases (j == i)) [
  | inl same ↦ omega (
    arith,
    count-tasks_onto l (lines (list j prev) []) (clear_list j ∷ tasks prev is list),
    ap (λ k. count l (lines (list k prev) [])) ((==_iff j i).0 same),
  )
  | inr other ↦ omega (
    arith,
    count-tasks_onto l (lines (list j prev) []) (clear_list j ∷ tasks prev is list),
    tasks_member prev is list i l (ground arith) h,
  )
]
