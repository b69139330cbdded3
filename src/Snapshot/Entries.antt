-- ===== src/Snapshot/Entries.antt =====
-- Logs whose entries all come from one snapshot: their order does not matter, and a replay stores
-- the snapshot at exactly the lines that they hold.
use escort.Prelude.{
  ℕ, ◌<◌, ◌≡◌, refl, true, ◌||◌, List, [], ◌∷◌, ◌++◌, ◌==◌, if◌then◌else◌, update, All, ==_iff,
  Bool-cases, inl, inr, ap, sym, ◌∙◌, ==_of_ne, bool_clash, arith,
}
use escort.Address.{num_lines, line_addr, add_addr}
use escort.Plog.{Entry, Memory, Cacheline}
use escort.Plog.Replay.{apply}
use escort.Snapshot.{line_of, nvm_addr, IsOf, holds}

pub holds-append : (l : ℕ) (xs ys : List Entry) → holds l (xs ++ ys) ≡ (holds l xs || holds l ys)
holds-append l [] ys = refl
holds-append l (e ∷ es) ys = ground (arith, holds-append l es ys)

-- Different lines lie at different places, in DRAM and in NVM, whatever the offset.
nvm_addr-injective :
    (offset l j : ℕ) → l < num_lines → j < num_lines → nvm_addr offset l ≡ nvm_addr offset j → l ≡ j
unfolding add_addr
nvm_addr-injective offset l j hl hj e = omega arith

same_cell :
    (snapshot : ℕ → Cacheline) (offset l : ℕ) (e : Entry)
    → l < num_lines
    → IsOf snapshot e
    → (add_addr e.addr offset == nvm_addr offset l) ≡ (line_of e == l)
same_cell snapshot offset l e h good = elim (Bool-cases (line_of e == l)) [
  | inl same ↦ rw same ((==_iff _ _).1 (ap (λ a. add_addr a offset) (place same)))
  | inr other ↦ rw other (
      ==_of_ne _ _ λ eq. bool_clash other (
        (==_iff _ _).1 (
          nvm_addr-injective offset (line_of e) l good.1 h
            (ap (λ a. add_addr a offset) (sym good.0) ∙ eq))))
]
  where
    place : (line_of e == l) ≡ true → e.addr ≡ line_addr l
    place same = ground arith

pub apply-at :
    (snapshot : ℕ → Cacheline) (offset l : ℕ) (es : List Entry) (nvm : Memory)
    → l < num_lines
    → All (IsOf snapshot) es
    → apply offset es nvm (nvm_addr offset l)
      ≡ (if holds l es then snapshot l else nvm (nvm_addr offset l))
apply-at snapshot offset l [] nvm h good = refl
apply-at snapshot offset l (e ∷ es) nvm h good = ground (
  arith,
  same_cell snapshot offset l e h good.0,
  (good.0).2,
  apply-at snapshot offset l es (update nvm (add_addr e.addr offset) e.val) h good.1,
)
