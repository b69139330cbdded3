-- ===== src/RootTable/Calls.antt =====
-- What the calls of the root table do on the tables that they can build.
use escort.Prelude.{
  ℕ, suc, ◌+◌, ◌≤◌, ◌<◌, ◌≡◌, ◌≢◌, refl, sym, ap, ◌∙◌, inl, inr, true, none, some, List, [], ◌∷◌,
  length, ltb, update, All, Bool-cases, Option-cases, ==_iff, arith,
}
use escort.RootTable.{
  Node, Table, returns, id_size, bucket_size, hashfn, equals_from, equals, copy_from, new_node,
  update_node, set, find, get, unlink, remove_from, remove,
}

-- No bucket has two nodes.
abbrev pub IsSmall : Table → Type 0
IsSmall t = (b : ℕ) → length (t b) ≤ 1

-- The bytes of a name hold no zero.
abbrev pub IsName : List ℕ → Type 0
IsName = All (λ c. 0 < c)

copy_from_below :
    (memory : ℕ → ℕ) (j : ℕ) (cs : List ℕ) (i : ℕ) → i < j → copy_from memory j cs i ≡ memory i
copy_from_below memory j [] i h = refl
copy_from_below memory j (c ∷ cs) i h =
    copy_from_below (update memory j c) (suc j) cs i (omega arith) ∙ ground arith

copy_from_above :
    (memory : ℕ → ℕ) (j : ℕ) (cs : List ℕ) (i : ℕ)
    → j + length cs ≤ i
    → copy_from memory j cs i ≡ memory i
copy_from_above memory j [] i h = refl
copy_from_above memory j (c ∷ cs) i h =
    copy_from_above (update memory j c) (suc j) cs i (omega arith) ∙ ground arith

-- A copied name is found again where a zero follows it in memory.
equals-copy :
    (memory : ℕ → ℕ) (j : ℕ) (cs : List ℕ)
    → memory (j + length cs) ≡ 0
    → equals_from (copy_from memory j cs) j cs ≡ true
equals-copy memory j [] h = ground arith
equals-copy memory j (c ∷ cs) h = ground (
  arith,
  copy_from_below (update memory j c) (suc j) cs j (omega arith),
  equals-copy (update memory j c) (suc j) cs,
  ap memory (shift j (length cs)),
)
  where
    shift : (a b : ℕ) → a + suc b ≡ suc a + b
    shift a b = omega arith

-- An array of bytes holds one name at most.
equals_unique :
    (id : ℕ → ℕ) (j : ℕ) (xs ys : List ℕ)
    → IsName xs
    → IsName ys
    → equals_from id j xs ≡ true
    → equals_from id j ys ≡ true
    → xs ≡ ys
equals_unique id j [] [] nx ny p q = refl
equals_unique id j [] (y ∷ ys) nx ny p q = absurd (ground arith)
equals_unique id j (x ∷ xs) [] nx ny p q = absurd (ground arith)
equals_unique id j (x ∷ xs) (y ∷ ys) nx ny p q =
    ground (arith, equals_unique id (suc j) xs ys (nx.1) (ny.1))

remove_from_small :
    (fuel b : ℕ) (rootid : List ℕ) (chain : List Node) (t t' : Table)
    → length chain ≤ 1
    → remove_from fuel b rootid chain t ≢ returns t'
unfolding remove_from unlink
remove_from_small fuel b rootid [] t t' small h = ground arith
remove_from_small fuel b rootid (n ∷ []) t t' small h =
    ground (arith, Bool-cases (equals n.id rootid))
remove_from_small fuel b rootid (n ∷ m ∷ rest) t t' small h = absurd (omega (arith, small))

-- `remove` never returns on a table of small buckets, whatever the fuel: where the only node has the
-- name the code reads through a null pointer after it has unlinked it, and else no node is found.
pub remove_never_returns :
    (fuel : ℕ) (rootid : List ℕ) (t t' : Table) → IsSmall t → remove fuel rootid t ≢ returns t'
unfolding remove
remove_never_returns fuel rootid t t' small h = ground (
  arith,
  remove_from_small fuel (hashfn rootid) rootid (t (hashfn rootid)) t t' (small (hashfn rootid)),
)

length-update_node :
    (rootid : List ℕ) (rootaddr : ℕ) (chain chain' : List Node)
    → update_node rootid rootaddr chain ≡ some chain'
    → length chain' ≡ length chain
unfolding update_node
length-update_node rootid rootaddr [] chain' h = absurd (ground arith)
length-update_node rootid rootaddr (n ∷ rest) chain' h =
    elim (Option-cases (update_node rootid rootaddr rest)) [
      | inl failed ↦ ground (arith, Bool-cases (equals n.id rootid))
      | inr (rest', e) ↦
          ground (
            arith,
            Bool-cases (equals n.id rootid),
            length-update_node rootid rootaddr rest rest' e,
          )
    ]

find-update_node :
    (rootid : List ℕ) (rootaddr : ℕ) (chain chain' : List Node)
    → update_node rootid rootaddr chain ≡ some chain'
    → find rootid chain' ≡ rootaddr
unfolding update_node find
find-update_node rootid rootaddr [] chain' h = absurd (ground arith)
find-update_node rootid rootaddr (n ∷ rest) chain' h =
    elim (Option-cases (update_node rootid rootaddr rest)) [
      | inl failed ↦ ground (arith, Bool-cases (equals n.id rootid))
      | inr (rest', e) ↦
          ground
            (arith, Bool-cases (equals n.id rootid), find-update_node rootid rootaddr rest rest' e)
    ]

find_other-update_node :
    (rootid other : List ℕ) (rootaddr : ℕ) (chain chain' : List Node)
    → IsName rootid
    → IsName other
    → rootid ≢ other
    → update_node rootid rootaddr chain ≡ some chain'
    → find other chain' ≡ find other chain
unfolding update_node find
find_other-update_node rootid other rootaddr [] chain' name name_other ne h = absurd (ground arith)
find_other-update_node rootid other rootaddr (n ∷ rest) chain' name name_other ne h =
    elim (Option-cases (update_node rootid rootaddr rest)) [
      | inl failed ↦ ground (
        arith,
        Bool-cases (equals n.id rootid),
        Bool-cases (equals n.id other),
        equals_unique n.id 0 rootid other name name_other,
      )
      | inr (rest', e) ↦ ground (
        arith,
        Bool-cases (equals n.id rootid),
        Bool-cases (equals n.id other),
        equals_unique n.id 0 rootid other name name_other,
        find_other-update_node rootid other rootaddr rest rest' name name_other ne e,
      )
    ]

-- What a `set` that returns does to the table.
pub record Stored (rootid : List ℕ) (rootaddr : ℕ) (t t' : Table) : Type 0 where
  pub small : IsSmall t → IsSmall t'
  pub own : get rootid t' ≡ returns rootaddr
  pub others :
      (other : List ℕ)
      → IsName other
      → length other < id_size
      → rootid ≢ other
      → get other t' ≡ get other t

Stored-of :
    (rootid : List ℕ) (rootaddr : ℕ) (t t' : Table) (chain : List Node)
    → ltb (hashfn rootid) bucket_size ≡ true
    → (length (t (hashfn rootid)) ≤ 1 → length chain ≤ 1)
    → find rootid chain ≡ rootaddr
    → ((other : List ℕ)
        → IsName other
        → rootid ≢ other
        → find other chain ≡ find other (t (hashfn rootid)))
    → update t (hashfn rootid) chain ≡ t'
    → Stored rootid rootaddr t t'
unfolding get
Stored-of rootid rootaddr t t' chain within small own others e = record {
  small = λ s b. ground (arith, s b, small (s (hashfn rootid)), e);
  own = ground arith;
  others = λ other name brief ne.
      ground (arith, others other name ne, ==_iff (hashfn rootid) (hashfn other));
}

-- A `set` of a name of fewer than 64 bytes that returns stores the address for its name, provided the
-- block for a new node holds a zero after the name; what the table stores for every other name of fewer
-- than 64 bytes stays, and so do small buckets.
pub set-Stored :
    (memory : ℕ → ℕ) (rootid : List ℕ) (rootaddr : ℕ) (t t' : Table)
    → IsName rootid
    → length rootid < id_size
    → memory (length rootid) ≡ 0
    → set memory rootid rootaddr t ≡ returns t'
    → Stored rootid rootaddr t t'
unfolding set find
set-Stored memory rootid rootaddr t t' name short zero_after h =
    elim (Bool-cases (ltb b bucket_size)) [
      | inr beyond ↦ absurd (ground arith)
      | inl within ↦ elim (Option-cases (update_node rootid rootaddr (t b))) [
        | inr (chain, e) ↦
            Stored-of rootid rootaddr t t' chain within
              (λ s. omega (arith, length-update_node rootid rootaddr (t b) chain e, s))
              (find-update_node rootid rootaddr (t b) chain e)
              (λ other name_other ne.
                find_other-update_node rootid other rootaddr (t b) chain name name_other ne e)
              (ground arith)
        | inl failed ↦ into_empty within failed (t b) refl
      ]
    ]
  where
    b : ℕ
    b = hashfn rootid

    plain : (n : ℕ) → 0 + n ≡ n
    plain n = omega arith

    shifted : memory (0 + length rootid) ≡ 0
    shifted = ap memory (plain (length rootid)) ∙ zero_after

    new_found : find rootid (new_node memory rootid rootaddr ∷ []) ≡ rootaddr
    new_found = ground (arith, equals-copy memory 0 rootid shifted)

    new_missed :
        (other : List ℕ)
        → IsName other
        → rootid ≢ other
        → find other (new_node memory rootid rootaddr ∷ []) ≡ find other []
    new_missed other name_other ne = ground (
      arith,
      equals-copy memory 0 rootid shifted,
      equals_unique (new_node memory rootid rootaddr).id 0 rootid other name name_other,
    )

    into_empty :
        ltb b bucket_size ≡ true
        → update_node rootid rootaddr (t b) ≡ none
        → (chain : List Node) → t b ≡ chain
        → Stored rootid rootaddr t t'
    into_empty within failed (n ∷ rest) e = absurd (ground (arith, e))
    into_empty within failed [] e =
        Stored-of rootid rootaddr t t' (new_node memory rootid rootaddr ∷ []) within
          (λ s. omega arith) new_found
          (λ other name_other ne. new_missed other name_other ne ∙ sym (ap (find other) e))
          (ground (arith, e))
