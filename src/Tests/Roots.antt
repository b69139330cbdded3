-- ===== src/Tests/Roots.antt =====
-- The names "list" and "silt", which have the same hash.
use escort.Prelude.{ℕ, ◌≡◌, ◌≢◌, refl, true, false, none, some, List, [], ◌∷◌, update, arith}
use escort.RootTable.{Table, returns, hashfn, hashfn_from, update_node, new_node, set, remove}
use escort.RootTable.Calls.{IsSmall, Stored, set-Stored, remove_never_returns}
use escort.RootTable.Lock.{lock, unlock, lock_excludes_nobody}
use escort.Interface.Roots.{escort_set_root, escort_get_root, escort_remove_root, remove_root_keeps}

abbrev list : List ℕ
list = 108 ∷ 105 ∷ 115 ∷ 116 ∷ []

abbrev silt : List ℕ
silt = 115 ∷ 105 ∷ 108 ∷ 116 ∷ []

abbrev zeros : ℕ → ℕ
zeros i = 0

abbrev no_roots : Table
no_roots b = []

abbrev one_root : Table
one_root = update no_roots 444 (new_node zeros list 640 ∷ [])

set-list : set zeros list 640 no_roots ≡ returns one_root
unfolding set hashfn hashfn_from update_node
set-list = refl

set-Stored_example : Stored list 640 no_roots one_root
set-Stored_example =
    set-Stored zeros list 640 no_roots one_root
      (omega arith, (omega arith, (omega arith, (omega arith, tt)))) (omega arith) refl set-list

one_root-IsSmall : IsSmall one_root
one_root-IsSmall b = ground arith

remove_never_returns_example : remove 100 list one_root ≢ returns no_roots
remove_never_returns_example = remove_never_returns 100 list one_root no_roots one_root-IsSmall

lock_excludes_nobody_example :
    (lock 2 true ≡ some true) × (unlock true ≡ some false) × (unlock false ≡ none)
lock_excludes_nobody_example = lock_excludes_nobody 0 true

abbrev in_epoch_2 : ℕ → ℕ
in_epoch_2 i = 2

set_root-list : escort_set_root (some 0) in_epoch_2 zeros list 640 no_roots ≡ returns one_root
unfolding escort_set_root set hashfn hashfn_from update_node
set_root-list = refl

remove_root_keeps_example :
    (escort_remove_root (some 0) in_epoch_2 list one_root ≡ returns one_root)
    × (escort_get_root (some 0) in_epoch_2 list one_root ≡ returns 640)
remove_root_keeps_example =
    remove_root_keeps (some 0) in_epoch_2 zeros list 640 no_roots one_root
      (omega arith, (omega arith, (omega arith, (omega arith, tt)))) (omega arith) refl
      set_root-list
