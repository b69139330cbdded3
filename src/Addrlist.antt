-- ===== src/Addrlist.antt =====
-- src/addrlist_t.hpp: the regions that a thread has marked in an epoch, first marked first.
use escort.Prelude.{ℕ, Bool, Option, none, some, List, [], ◌∷◌, ◌++◌, length, ◌==◌}

abbrev pub Region : Type 0
Region = ℕ × ℕ

abbrev pub Addrlist : Type 0
Addrlist = List Region

abbrev pub append : Region → Addrlist → Addrlist
append entry list = list ++ entry ∷ []

abbrev pub size : Addrlist → ℕ
size list = length list

abbrev pub empty : Addrlist → Bool
empty list = size list == 0

-- The last entry is returned and taken off; the code does not test for an empty list.
unfoldable pub pop : Addrlist → Option (Region × Addrlist)
pop [] = none
pop (entry ∷ rest) = elim (pop rest) [
  | none ↦ some (entry, [])
  | some (last, before) ↦ some (last, entry ∷ before)
]

abbrev pub clear : Addrlist → Addrlist
clear list = []
