-- ===== src/Interface/Regions.antt =====
-- A region more on the list of a thread, and what the loops of `log_persistence_unit`
-- (src/checkpointing.cpp) then visit.
use escort.Prelude.{
  ℕ, zero, suc, ◌+◌, ◌≤◌, ◌<◌, ◌≡◌, ◌⊎◌, refl, ap, subst, sym, inl, inr, Bool, List, [], ◌∷◌, ◌++◌,
  ◌==◌, update, count, length, Bool-cases, ==_iff, arith,
}
use escort.Address.{num_lines, line_addr}
use escort.Addrlist.{Addrlist, Region}
use escort.World.{put}
use escort.Snapshot.Visits.{lines, lines_onto, region_line, visits, InHeap, Registered}
use escort.Durability.Lines.{count-lines, count-lines-append, region_member}

abbrev pub listed_too : ℕ → Bool → Region → (ℕ → Bool → Addrlist) → ℕ → Bool → Addrlist
listed_too i c r list = update list i (put c (list i c ++ r ∷ []) (list i))

InHeap-append :
    (rs : Addrlist) (l n : ℕ) → InHeap rs → l + n ≤ num_lines → InHeap (rs ++ (line_addr l, n) ∷ [])
InHeap-append [] l n h b = (omega arith, omega arith, tt)
InHeap-append (r ∷ rs) l n h b = (h.0, h.1, InHeap-append rs l n h.2 b)

length-lines_onto : (l n : ℕ) (rest : List ℕ) → length (lines_onto l n rest) ≡ n + length rest
length-lines_onto l zero rest = omega arith
length-lines_onto l (suc n) rest = omega (arith, length-lines_onto (suc l) n rest)

-- How many lines a list has.
abbrev size_of : Addrlist → ℕ
size_of [] = 0
size_of ((addr, n) ∷ rs) = n + size_of rs

length-lines : (rs : Addrlist) (rest : List ℕ) → length (lines rs rest) ≡ size_of rs + length rest
length-lines [] rest = omega arith
length-lines ((addr, n) ∷ rs) rest =
    omega (arith, length-lines_onto (region_line (addr, n)) n (lines rs rest), length-lines rs rest)

size_of-append : (rs : Addrlist) (addr n : ℕ) → size_of (rs ++ (addr, n) ∷ []) ≡ size_of rs + n
size_of-append [] addr n = omega arith
size_of-append ((a, m) ∷ rs) addr n = omega (arith, size_of-append rs addr n)

module _ (c : Bool) (list : ℕ → Bool → Addrlist) (i l n : ℕ) where
  abbrev list' : ℕ → Bool → Addrlist
  list' = listed_too i c (line_addr l, n) list

  own : list' i c ≡ list i c ++ (line_addr l, n) ∷ []
  own = ground (arith, Bool-cases c)

  row : (j : ℕ) → (j ≡ i) ⊎ (list' j c ≡ list j c)
  row j = elim (Bool-cases (i == j)) [
    | inl same ↦ inl (sym ((==_iff i j).0 same))
    | inr other ↦ inr (ground arith)
  ]

  grows : (x j : ℕ) → count x (lines (list j c) []) ≤ count x (lines (list' j c) [])
  grows x j = elim (row j) [
    | inr same ↦ omega (arith, ap (λ rs. count x (lines rs [])) same)
    | inl here ↦
        subst (λ k. count x (lines (list k c) []) ≤ count x (lines (list' k c) [])) (sym here)
          (omega (
            arith,
            ap (λ rs. count x (lines rs [])) own,
            count-lines-append x (list i c) (line_addr l, n),
          ))
  ]

  pub visits_keep : (x : ℕ) (is : List ℕ) → count x (visits c is list) ≤ count x (visits c is list')
  visits_keep x [] = omega arith
  visits_keep x (j ∷ is) = omega (
    arith,
    count-lines x (list j c) (visits c is list),
    count-lines x (list' j c) (visits c is list'),
    grows x j,
    visits_keep x is,
  )

  pub visits_gain :
      (x : ℕ) (is : List ℕ) → 0 < count i is → l ≤ x → x < l + n → 0 < count x (visits c is list')
  visits_gain x [] m a b = absurd (omega arith)
  visits_gain x (j ∷ is) m a b = elim (Bool-cases (j == i)) [
    | inl same ↦ omega (
      arith,
      count-lines x (list' j c) (visits c is list'),
      ap (λ k. count x (lines (list' k c) [])) ((==_iff j i).0 same),
      ap (λ rs. count x (lines rs [])) own,
      count-lines-append x (list i c) (line_addr l, n),
      region_member x l n a b,
    )
    | inr other ↦
        omega (
          arith,
          count-lines x (list' j c) (visits c is list'),
          visits_gain x is (ground arith) a b,
        )
  ]

  pub listed_too-Registered :
      (is : List ℕ) → l + n ≤ num_lines → Registered c is list → Registered c is list'
  listed_too-Registered [] b r = tt
  listed_too-Registered (j ∷ is) b r = (
    r.0,
    elim (row j) [
      | inr same ↦ subst InHeap (sym same) (r.1)
      | inl here ↦
          subst (λ k. InHeap (list' k c)) (sym here)
            (subst InHeap (sym own)
              (InHeap-append (list i c) l n (subst (λ k. InHeap (list k c)) here (r.1)) b))
    ],
    listed_too-Registered is b r.2,
  )

  elsewhere_length :
      (is : List ℕ) → count i is ≡ 0 → length (visits c is list') ≡ length (visits c is list)
  elsewhere_length [] h = refl
  elsewhere_length (j ∷ is) h = elim (row j) [
    | inl here ↦ absurd (ground (arith, here, ==_iff j i))
    | inr same ↦ omega (
      arith,
      length-lines (list j c) (visits c is list),
      length-lines (list' j c) (visits c is list'),
      ap size_of same,
      elsewhere_length is (ground arith),
    )
  ]

  pub length-visits :
      (is : List ℕ)
      → Registered c is list
      → length (visits c is list') ≤ length (visits c is list) + n
  length-visits [] r = omega arith
  length-visits (j ∷ is) r = elim (row j) [
    | inr same ↦ omega (
      arith,
      length-lines (list j c) (visits c is list),
      length-lines (list' j c) (visits c is list'),
      ap size_of same,
      length-visits is r.2,
    )
    | inl here ↦ omega (
      arith,
      length-lines (list j c) (visits c is list),
      length-lines (list' j c) (visits c is list'),
      ap (λ k. size_of (list' k c)) here,
      ap (λ k. size_of (list k c)) here,
      ap size_of own,
      size_of-append (list i c) (line_addr l) n,
      elsewhere_length is (subst (λ k. count k is ≡ 0) here (r.0)),
    )
  ]
