-- ===== src/RootTable.antt =====
-- The table of named roots, src/roottable_t.hpp: buckets of chained nodes. A name is its bytes before
-- the terminating zero, the `id` of a node an array of 64 bytes, of which those at 0 to 63 count. What lies
-- behind them, the address and the next node, is not reached by `strcmp` with a name of fewer than 64
-- bytes; a copy of more than 64 bytes, which would go on into the address, stops. A bucket is the chain of its nodes. One
-- thread calls at a time, so the lock of a bucket is free; the marks that precede each write are those
-- of `Userthread.mark` and are left out.
pub mod Calls
pub mod Lock
use escort.Prelude.{
  ℕ, zero, suc, ◌+◌, ◌-◌, ◌%◌, ◌^◌, Bool, true, false, ◌&&◌, Option, none, some, List, [], ◌∷◌,
  length, ltb, ◌==◌, if◌then◌else◌, update,
}

abbrev pub bucket_size : ℕ
bucket_size = 512

-- `CACHE_LINE_SIZE`, the size of the array `id`.
abbrev pub id_size : ℕ
id_size = 64

pub record Node : Type 0 where
  pub id : ℕ → ℕ
  pub addr : ℕ

abbrev pub Table : Type 0
Table = ℕ → List Node

-- A call returns, stops the process (an access through a null pointer or beyond an array, a failed
-- assertion, `DEBUG_ERROR`), or is still in a loop when the fuel is used up.
pub data Outcome {ℓ} (A : Type ℓ) : Type ℓ where
  returns : A → Outcome A
  stops : Outcome A
  runs_on : Outcome A

-- `static_cast<std::uint32_t>` of a signed `char`, given by its pattern below 256.
abbrev pub of_char : ℕ → ℕ
of_char c = if ltb c 128 then c else 2 ^ 32 + c - 256

unfoldable pub hashfn_from : ℕ → List ℕ → ℕ
hashfn_from ret [] = ret
hashfn_from ret (c ∷ cs) = hashfn_from ((ret + of_char c) % 2 ^ 32) cs

unfoldable pub hashfn : List ℕ → ℕ
hashfn rootid = hashfn_from 0 rootid

-- `strcmp(id, rootid) == 0`, from byte `j` on; it reads the bytes up to the zero of the name at most.
abbrev pub equals_from : (ℕ → ℕ) → ℕ → List ℕ → Bool
equals_from id j [] = id j == 0
equals_from id j (c ∷ cs) = (id j == c) && equals_from id (suc j) cs

abbrev pub equals : (ℕ → ℕ) → List ℕ → Bool
equals id rootid = equals_from id 0 rootid

-- `memcpy(id, rootid, strlen(rootid))` over what the new block of memory holds.
abbrev pub copy_from : (ℕ → ℕ) → ℕ → List ℕ → ℕ → ℕ
copy_from memory j [] = memory
copy_from memory j (c ∷ cs) = copy_from (update memory j c) (suc j) cs

abbrev pub new_node : (ℕ → ℕ) → List ℕ → ℕ → Node
new_node memory rootid rootaddr = record { id = copy_from memory 0 rootid; addr = rootaddr }

-- The first loop of `set`: the chain with the node of that name updated, if there is one.
unfoldable pub update_node : List ℕ → ℕ → List Node → Option (List Node)
update_node rootid rootaddr [] = none
update_node rootid rootaddr (n ∷ rest) =
    let later = update_node rootid rootaddr rest in
    if equals n.id rootid
    then some (record n { addr = rootaddr } ∷ rest)
    else elim later [ none ↦ none | some rest' ↦ some (n ∷ rest') ]

-- After that loop `curr` is null. The constructor of the new node copies the name into `id`, beyond which
-- a name of more than 64 bytes goes. An empty bucket takes the node as its head; otherwise the code
-- reads `curr->next`. `memory` is what the block for the new node holds.
unfoldable pub set : (ℕ → ℕ) → List ℕ → ℕ → Table → Outcome Table
set memory rootid rootaddr t =
    let b = hashfn rootid in
    if ltb b bucket_size
    then elim (update_node rootid rootaddr (t b)) [
      | some chain ↦ returns (update t b chain)
      | none ↦ elim (t b) [
        | [] ↦
            if ltb id_size (length rootid)
            then stops
            else returns (update t b (new_node memory rootid rootaddr ∷ []))
        | _ ∷ _ ↦ stops
      ]
    ]
    else stops

-- The null pointer is 0.
unfoldable pub find : List ℕ → List Node → ℕ
find rootid [] = 0
find rootid (n ∷ rest) = if equals n.id rootid then n.addr else find rootid rest

unfoldable pub get : List ℕ → Table → Outcome ℕ
get rootid t =
    let b = hashfn rootid in if ltb b bucket_size then returns (find rootid (t b)) else stops

-- The loop of `remove` at `curr`, the head of the chain: it unlinks the next node if that has the name,
-- and tests again without a step to it.
unfoldable pub unlink : ℕ → List ℕ → Bool → List Node → Outcome (Bool × List Node)
unlink fuel rootid found [] = stops
unlink fuel rootid found (curr ∷ []) = returns (found, curr ∷ [])
unlink zero rootid found (curr ∷ next ∷ rest) = runs_on
unlink (suc fuel) rootid found (curr ∷ next ∷ rest) = elim (equals next.id rootid) [
  | true ↦ unlink fuel rootid true (curr ∷ rest)
  | false ↦ unlink fuel rootid found (curr ∷ next ∷ rest)
]

-- What follows the loop: `PDELETE`, or `DEBUG_ERROR` if no node was found.
abbrev pub finish : ℕ → Table → Outcome (Bool × List Node) → Outcome Table
finish b t (returns (true, chain)) = returns (update t b chain)
finish b t (returns (false, chain)) = stops
finish b t stops = stops
finish b t runs_on = runs_on

unfoldable pub remove_from : ℕ → ℕ → List ℕ → List Node → Table → Outcome Table
unfolding unlink
remove_from fuel b rootid [] t = stops
remove_from fuel b rootid (head ∷ rest) t = finish b t (
    if equals head.id rootid
    then unlink fuel rootid true rest
    else unlink fuel rootid false (head ∷ rest))

unfoldable pub remove : ℕ → List ℕ → Table → Outcome Table
unfolding remove_from
remove fuel rootid t =
    let b = hashfn rootid in if ltb b bucket_size then remove_from fuel b rootid (t b) t else stops
