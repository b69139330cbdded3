-- ===== src/Interface/Roots.antt =====
-- The calls on named roots, src/Escort.cpp and src/userthreadctx_t.cpp: each needs a registered thread
-- within an operation.
use escort.Prelude.{
  ℕ, ◌<◌, ◌≡◌, inl, inr, none, some, List, length, ◌==◌, if◌then◌else◌, Bool-cases, arith,
}
use escort.RootTable
use escort.RootTable.{Table, Outcome, returns, stops, runs_on, id_size, get}
use escort.RootTable.Calls.{IsName, set-Stored}
use escort.Interface.{Ctx}

-- `assert(lv::ctx != nullptr)`, and a call of a member of the context.
abbrev pub with_ctx {ℓ} : {A : Type ℓ} → Ctx → (ℕ → Outcome A) → Outcome A
with_ctx none m = stops
with_ctx (some i) m = m i

-- `assert(get_epoch() != 0)`
abbrev pub in_operation {ℓ} : {A : Type ℓ} → ℕ → Outcome A → Outcome A
in_operation epoch m = if epoch == 0 then stops else m

-- The members of `userthreadctx_t`.
abbrev pub set_root : ℕ → (ℕ → ℕ) → (ℕ → ℕ) → List ℕ → ℕ → Table → Outcome Table
set_root i thread_epoch memory id addr t =
    in_operation (thread_epoch i) (RootTable.set memory id addr t)

abbrev pub get_root : ℕ → (ℕ → ℕ) → List ℕ → Table → Outcome ℕ
get_root i thread_epoch id t = in_operation (thread_epoch i) (get id t)

unfoldable pub escort_set_root : Ctx → (ℕ → ℕ) → (ℕ → ℕ) → List ℕ → ℕ → Table → Outcome Table
escort_set_root ctx thread_epoch memory id addr t =
    with_ctx ctx λ i. set_root i thread_epoch memory id addr t

unfoldable pub escort_get_root : Ctx → (ℕ → ℕ) → List ℕ → Table → Outcome ℕ
escort_get_root ctx thread_epoch id t = with_ctx ctx λ i. get_root i thread_epoch id t

-- The result of `get_root` is dropped.
abbrev pub then_table : Table → Outcome ℕ → Outcome Table
then_table t (returns addr) = returns t
then_table t stops = stops
then_table t runs_on = runs_on

-- It calls `get_root`, not `remove_root`.
unfoldable pub escort_remove_root : Ctx → (ℕ → ℕ) → List ℕ → Table → Outcome Table
escort_remove_root ctx thread_epoch id t =
    with_ctx ctx λ i. then_table t (get_root i thread_epoch id t)

-- A root that `escort_set_root` has set, with a name of fewer than 64 bytes free of zeros and a zero after
-- the name in the block for a new node, is still there after `escort_remove_root` of its name: that returns, with the table as
-- it was, and `escort_get_root` yields the address.
pub remove_root_keeps :
    (ctx : Ctx) (thread_epoch memory : ℕ → ℕ) (id : List ℕ) (addr : ℕ) (t t' : Table)
    → IsName id
    → length id < id_size
    → memory (length id) ≡ 0
    → escort_set_root ctx thread_epoch memory id addr t ≡ returns t'
    → (escort_remove_root ctx thread_epoch id t' ≡ returns t')
      × (escort_get_root ctx thread_epoch id t' ≡ returns addr)
unfolding escort_set_root escort_get_root escort_remove_root
remove_root_keeps none thread_epoch memory id addr t t' name short zero_after h =
    absurd (ground arith)
remove_root_keeps (some i) thread_epoch memory id addr t t' name short zero_after h =
    elim (Bool-cases (thread_epoch i == 0)) [
      | inl outside ↦ absurd (ground arith)
      | inr inside ↦
          let own = (set-Stored memory id addr t t' name short zero_after (ground arith)).own in
          (ground (arith, own), ground (arith, own))
    ]
